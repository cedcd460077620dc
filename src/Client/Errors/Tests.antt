-- ===== src/Client/Errors/Tests.antt =====
-- Errors that are one another's causes, and the theorems at inputs.
use dawn_mesh_server.Prelude.{
  ℕ, zero, suc, ◌≡◌, refl, Bool, true, false, List, [], ◌∷◌, ◌++◌, none, some, String,
}
use dawn_mesh_server.Prelude.Maps.{string_eq, number_eq}
use dawn_mesh_server.Client.Errors.{
  error_object, ErrorObject, collect_names, enough, class_text, own_text, error_text, wrapped,
  operation,
}
use dawn_mesh_server.Client.Errors.Chains.{is_found, error_text_ends}
use dawn_mesh_server.Client.Errors.Wrapping.{operation_classified}
use dawn_mesh_server.Client.Errors.Media.{
  collect_parts, media_failure_text, join_parts, failure_text,
}
use dawn_mesh_server.Client.Errors.Endless.{media_failure_text_ends, all_told}

-- A denied microphone and an error that it wraps, each the cause of the other.
abbrev cycle : List ErrorObject
cycle =
    record { name = "Error"; message = "capture"; cause = some (error_object 1); status = some 403 }
    ∷ record {
      name = "NotAllowedError";
      message = "denied";
      cause = some (error_object 0);
      status = none;
    }
    ∷ []

abbrev denied : String
denied = "浏览器没有获得麦克风权限，请在网站权限中允许麦克风"

text_runs : error_text cycle (error_object 0) ≡ some denied
unfolding error_text collect_names class_text own_text
text_runs = refl

error_text_ends_example : is_found (error_text cycle (error_object 0)) ≡ true
error_text_ends_example = error_text_ends cycle (error_object 0)

names_run :
    collect_names (enough cycle) cycle [] (some (error_object 0))
    ≡ some ("Error" ∷ "NotAllowedError" ∷ [])
unfolding collect_names
names_run = refl

operation_classified_example :
    let e = wrapped "麦克风" denied 0 (some 403) in
    (operation "麦克风" cycle (error_object 0) ≡ some (cycle ++ (e ∷ []), 2))
    × (error_text (cycle ++ (e ∷ [])) (error_object 2) ≡ some denied)
operation_classified_example =
    operation_classified cycle "麦克风" denied 0 ("Error" ∷ "NotAllowedError" ∷ []) refl refl names_run
      class_runs
  where
    class_runs : class_text ("Error" ∷ "NotAllowedError" ∷ []) ≡ some denied
    class_runs = unfold class_text in refl

abbrev same_text : String → String
same_text text = text

abbrev never : String → Bool
never text = false

media_failure_text_ends_example :
    is_found (media_failure_text same_text never cycle (error_object 0)) ≡ true
media_failure_text_ends_example =
    media_failure_text_ends same_text never cycle (error_object 0) told
  where
    told : all_told cycle ≡ true
    told = unfold all_told in refl

-- An error without a message that is its own cause.
abbrev silent : List ErrorObject
silent = record { name = "E"; message = ""; cause = some (error_object 0); status = none } ∷ []

-- No number of turns ends its loop.
never_ends :
    (turns : ℕ) (names : List String)
    → collect_parts turns silent (record { parts = []; names = names }) (some (error_object 0))
      ≡ none
unfolding collect_parts
never_ends zero names = refl
never_ends (suc turns) names = never_ends turns (names ++ ("E" ∷ []))

-- "service" holds "ice".
service_runs :
    failure_text same_text never
      (record { parts = "service unavailable" ∷ []; names = "Error" ∷ [] })
    ≡ "LiveKit ICE 连接失败：请检查公布的公网 IP、UDP 57882 和 TCP 57881"
unfolding failure_text join_parts
service_runs = refl
