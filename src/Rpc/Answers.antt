-- ===== src/Rpc/Answers.antt =====
-- What postView of api/src/services/near-rpc.ts makes of a response: a value, an error of the contract,
-- or a failure that is tried again. `decode` reads the bytes of a result as JSON.
use citynode_app.Prelude.{
  String, Bool, true, false, Option, none, some, if◌then◌else◌, ◌==◌, ◌||◌, not,
}
use citynode_app.Json.{Json, null, bool, num, str, arr, obj, Items, Fields, end, field}
use citynode_app.Rpc.Texts.{includes}

pub data ViewFailureKind : Type 0 where
  unknown_account no_contract_code method_not_found execution_error invalid_result : ViewFailureKind

-- a response with its status and its body, if that is JSON, or no response
pub data Fetched : Type 0 where
  response : Bool → Option Json → Fetched
  failed : Fetched

pub data Posted : Type 0 where
  value : Json → Posted
  call_error : ViewFailureKind → Posted
  retryable : Posted

unfoldable pub member_of : String → Fields → Option Json
member_of name end = none
member_of name (field k v fields) = if k == name then some v else member_of name fields

-- `value?.name`, of a value that is no object undefined
abbrev pub get : String → Option Json → Option Json
get name (some (obj fields)) = member_of name fields
get name _ = none

abbrev pub truthy : Option Json → Bool
truthy none = false
truthy (some null) = false
truthy (some (bool b)) = b
truthy (some (num n)) = not (n == "0")
truthy (some (str s)) = not (s == "")
truthy (some (arr items)) = true
truthy (some (obj fields)) = true

abbrev pub text_of : Option Json → String
text_of (some (str s)) = s
text_of _ = ""

-- CONTRACT_ERROR_CAUSES, at a name that is not one every object has, such as toString
unfoldable pub cause_kind : String → Option ViewFailureKind
cause_kind name =
    if name == "UNKNOWN_ACCOUNT" || name == "INVALID_ACCOUNT"
    then some unknown_account
    else if name == "NO_CONTRACT_CODE"
    then some no_contract_code
    else if name == "CONTRACT_EXECUTION_ERROR"
    then some execution_error
    else none

unfoldable pub wasm_failure_kind : String → ViewFailureKind
unfolding includes
wasm_failure_kind error =
    if includes "MethodNotFound" error
    then method_not_found
    else if includes "CodeDoesNotExist" error
    then no_contract_code
    else execution_error

abbrev pub posted_error : Option ViewFailureKind → String → Posted
posted_error (some kind) data_text = call_error kind
posted_error none data_text =
    if includes "does not exist while viewing" data_text
    then call_error unknown_account
    else retryable

abbrev pub decoded : Option Json → Posted
decoded none = call_error invalid_result
decoded (some v) = value v

abbrev pub posted_bytes : (Items → Option Json) → Option Json → Posted
posted_bytes decode (some (arr items)) = decoded (decode items)
posted_bytes decode _ = retryable

abbrev pub posted_result : (Items → Option Json) → Option Json → Option Json → Posted
posted_result decode (some (str error)) bytes = call_error (wasm_failure_kind error)
posted_result decode _ bytes = posted_bytes decode bytes

unfoldable pub posted_envelope : (Items → Option Json) → Json → Posted
unfolding member_of cause_kind includes wasm_failure_kind
posted_envelope decode body =
    let error = get "error" (some body) in
    let result = get "result" (some body) in
    if truthy error
    then posted_error (cause_kind (text_of (get "name" (get "cause" error))))
        (text_of (get "data" error))
    else posted_result decode (get "error" result) (get "result" result)

unfoldable pub posted : (Items → Option Json) → Fetched → Posted
unfolding posted_envelope
posted decode (response true (some body)) = posted_envelope decode body
posted decode (response true none) = retryable
posted decode (response false body) = retryable
posted decode failed = retryable
