-- ===== src/Client/Errors.antt =====
-- The texts that frontend/src/client/app.ts shows for an error: `errorText`, `operation`,
-- `mediaFailureText` and `diagnoseMediaFailure`, with `asError` of frontend/src/shared/dom.ts. An
-- error is an object with an identity, and may name another, or itself, as its cause.
pub mod Chains
pub mod Wrapping
pub mod Media
pub mod Endless
mod Tests
use Prim.Native.String.{◌++◌ as join}
use dawn_mesh_server.Prelude.{
  ℕ, zero, suc, ◌+◌, Bool, true, false, ◌&&◌, ◌||◌, not, List, [], ◌∷◌, ◌++◌, Option, none, some,
  String, if◌then◌else◌, ◌==◌, length, get_or,
}
use dawn_mesh_server.Prelude.Maps.{◌===◌, string_eq, number_eq, contains}

-- A thrown value: an error by its identity, or another value by its text, `String(value)`.
pub data Value : Type 0 where
  error_object : ℕ → Value
  other : String → Value

-- `cause` is none if it is undefined or another falsy value.
pub record ErrorObject : Type 0 where
  pub name : String
  pub message : String
  pub cause : Option Value
  pub status : Option ℕ

-- `new RequestError(message)`.
abbrev pub request_error : String → ErrorObject
request_error message = record { name = "Error"; message = message; cause = none; status = none }

abbrev pub error_at : List ErrorObject → ℕ → ErrorObject
error_at errors i = get_or errors i (request_error "")

-- `asError`, among the errors that there are: another value becomes a new one.
unfoldable pub as_error : List ErrorObject → Value → List ErrorObject × ℕ
as_error errors (error_object i) = (errors, i)
as_error errors (other text) = (errors ++ (request_error text ∷ []), length errors)

abbrev pub is_self : ℕ → Option Value → Bool
is_self i (some (error_object j)) = j == i
is_self i _ = false

abbrev pub add_name : String → Option (List String) → Option (List String)
add_name name none = none
add_name name (some names) = some (if name === "" then names else name ∷ names)

-- The names that the loop of `errorText` collects, on fuel: `none` if it runs out.
unfoldable pub collect_names : ℕ → List ErrorObject → List ℕ → Option Value → Option (List String)
collect_names zero errors visited current = none
collect_names (suc fuel) errors visited none = some []
collect_names (suc fuel) errors visited (some (other text)) = some ("Error" ∷ [])
collect_names (suc fuel) errors visited (some (error_object i)) =
    let e = error_at errors i in
    let rest =
      collect_names fuel errors (i ∷ visited) (if is_self i e.cause then none else e.cause) in
    if contains i visited then some [] else add_name e.name rest

-- One more turn than there are errors, and one to see the end.
abbrev pub enough : List ErrorObject → ℕ
enough errors = length errors + 2

unfoldable pub class_text : List String → Option String
class_text names =
    if contains "NotAllowedError" names || contains "SecurityError" names
    then some "浏览器没有获得麦克风权限，请在网站权限中允许麦克风"
    else if contains "NotFoundError" names || contains "DevicesNotFoundError" names
    then some "没有找到可用麦克风，请检查系统麦克风权限和输入设备"
    else if contains "NotReadableError" names || contains "TrackStartError" names
    then some "麦克风暂时无法读取，请关闭占用麦克风的程序后重试"
    else if contains "OverconstrainedError" names || contains "ConstraintNotSatisfiedError" names
    then some "麦克风不支持当前采集参数"
    else if contains "OperationError" names
    then some "浏览器加密接口执行失败，请升级浏览器后重试"
    else none

abbrev pub or_text : String → String → String
or_text text default = if text === "" then default else text

-- `asError(error).message || String(error) || "操作失败"`; an error without a message is its name.
unfoldable pub own_text : List ErrorObject → Value → String
own_text errors (error_object i) =
    or_text (error_at errors i).message (or_text (error_at errors i).name "操作失败")
own_text errors (other text) = or_text text "操作失败"

abbrev pub or_own : Option String → String → String
or_own none own = own
or_own (some text) own = text

abbrev pub text_for : Option (List String) → String → Option String
text_for none own = none
text_for (some names) own = some (or_own (class_text names) own)

unfoldable pub error_text : List ErrorObject → Value → Option String
unfolding collect_names
error_text errors value =
    text_for (collect_names (enough errors) errors [] (some value)) (own_text errors value)

-- The error that `operation` throws for a `cause`, after its text was found.
abbrev pub wrapped : String → String → ℕ → Option ℕ → ErrorObject
wrapped stage text cause status = record {
  name = "Error";
  message = join stage (join "失败：" text);
  cause = some (error_object cause);
  status = status;
}

-- `operation` where its callback rejects with `value`: the errors after it, and the one it throws.
abbrev pub wrap_error :
    String → List ErrorObject → ℕ → Option String → Option (List ErrorObject × ℕ)
wrap_error stage errors cause none = none
wrap_error stage errors cause (some text) =
    some (errors ++ (wrapped stage text cause (error_at errors cause).status ∷ []), length errors)

unfoldable pub operation : String → List ErrorObject → Value → Option (List ErrorObject × ℕ)
unfolding error_text as_error
operation stage errors value =
    let (errors', cause) = as_error errors value in
    wrap_error stage errors' cause (error_text errors' (error_object cause))
