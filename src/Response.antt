-- ===== src/Response.antt =====
-- response.c and request.h: the JSON-RPC responses, built as cJSON trees. The memory for a response
-- is taken to be there; a response is `none` where the request has no usable id.
use cjet.Base.{ℕ, ◌-◌, ◌^◌, Option, none, some, true}
use cjet.Base.Str.{Str, codes}
use cjet.Json.{Json, Fields, Platform}

-- The codes of response.h.
pub data ErrorCode : Type 0 where
  invalid_request method_not_found invalid_params internal_error : ErrorCode

-- The code as the pattern of a 32-bit `int`.
unfoldable pub code_value : ErrorCode → ℕ
code_value ErrorCode.invalid_request = 2 ^ 32 - 32600
code_value ErrorCode.method_not_found = 2 ^ 32 - 32601
code_value ErrorCode.invalid_params = 2 ^ 32 - 32602
code_value ErrorCode.internal_error = 2 ^ 32 - 32603

-- The `switch` of `create_error_object`.
unfoldable pub code_message : ErrorCode → Str
code_message ErrorCode.invalid_request = codes "Invalid Request"
code_message ErrorCode.method_not_found = codes "Method not found"
code_message ErrorCode.invalid_params = codes "Invalid params"
code_message ErrorCode.internal_error = codes "Internal error"

module _ (g : Platform) where
  -- `create_common_response`: the id of the request, if it is a string or a number
  unfoldable pub create_common_response : Json → Option (Str × Json)
  create_common_response (Json.string s) = some (codes "id", Json.string s)
  create_common_response (Json.number valueint _) = some (codes "id", g.create_number valueint)
  create_common_response _ = none

  -- `create_error_object`, with tag and reason given
  unfoldable pub create_error_object : ErrorCode → Str → Str → Json
  unfolding code_value code_message
  create_error_object code tag reason = Json.object (
      Fields.field (codes "message") (Json.string (code_message code)) (
        Fields.field (codes "code") (g.create_number (code_value code)) (
          Fields.field (codes "data")
            (Json.object (Fields.field tag (Json.string reason) Fields.end)) Fields.end)))

  -- `create_result_response`; `result_type` is "result" or "error"
  unfoldable pub create_result_response : Json → Json → Str → Option Json
  create_result_response id result result_type = elim (create_common_response id) [
    | some (key, value) ↦
        some (Json.object (Fields.field key value (Fields.field result_type result Fields.end)))
    | none ↦ none
  ]

  -- `create_error_response`
  unfoldable pub create_error_response : Json → ErrorCode → Str → Str → Option Json
  create_error_response id code tag reason =
      create_result_response id (create_error_object code tag reason) (codes "error")

  -- `create_error_response_from_request`
  unfoldable pub create_error_response_from_request : Json → ErrorCode → Str → Str → Option Json
  create_error_response_from_request request code tag reason =
      elim (g.get_object_item request (codes "id")) [
        | some id ↦ create_error_response id code tag reason
        | none ↦ none
      ]

  -- `create_result_response_from_request`
  unfoldable pub create_result_response_from_request : Json → Json → Str → Option Json
  create_result_response_from_request request result result_type =
      elim (g.get_object_item request (codes "id")) [
        | some id ↦ create_result_response id result result_type
        | none ↦ none
      ]

  -- `create_success_response_from_request`
  unfoldable pub create_success_response_from_request : Json → Option Json
  create_success_response_from_request request =
      create_result_response_from_request request (Json.boolean true) (codes "result")
