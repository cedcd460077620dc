-- ===== src/Client/Errors/Media.antt =====
-- `mediaFailureText` and `diagnoseMediaFailure` of frontend/src/client/app.ts. Its loop stops at a
-- message that it has seen, so it ends where every error has a message.
use text.Mathlib.Text
use Prim.Native.String.{◌++◌ as join}
use dawn_mesh_server.Prelude.{
  ℕ, zero, suc, Bool, false, ◌||◌, List, [], ◌∷◌, ◌++◌, Option, none, some, String, if◌then◌else◌,
  ◌==◌,
}
use dawn_mesh_server.Prelude.Maps.{◌===◌, string_eq, contains}
use dawn_mesh_server.Client.Errors.{
  Value, error_object, other, ErrorObject, request_error, error_at, enough, or_text,
}
use dawn_mesh_server.Client.Errors.Chains.{is_found}

-- The messages and the names that are collected, in order.
pub record Collected : Type 0 where
  pub parts : List String
  pub names : List String

abbrev pub push_text : String → List String → List String
push_text text texts = if text === "" then texts else texts ++ (text ∷ [])

abbrev pub note : ErrorObject → Collected → Collected
note e c = record { parts = push_text e.message c.parts; names = push_text e.name c.names }

-- The loop, on fuel.
unfoldable pub collect_parts : ℕ → List ErrorObject → Collected → Option Value → Option Collected
collect_parts zero errors c current = none
collect_parts (suc fuel) errors c none = some c
collect_parts (suc fuel) errors c (some (other text)) =
    let rest = collect_parts fuel errors (note (request_error text) c) none in
    if contains text c.parts then some c else rest
collect_parts (suc fuel) errors c (some (error_object i)) =
    let e = error_at errors i in
    let rest = collect_parts fuel errors (note e c) e.cause in
    if contains e.message c.parts then some c else rest

-- `parts.join(" · ")`.
unfoldable pub join_parts : List String → String
join_parts [] = ""
join_parts (part ∷ []) = part
join_parts (part ∷ next ∷ parts) = join part (join " · " (join_parts (next ∷ parts)))

abbrev pub includes : String → String → Bool
includes text part = is_found (Text.find? text part)

abbrev pub includes_any : String → List String → Bool
includes_any text [] = false
includes_any text (part ∷ parts) = includes text part || includes_any text parts

-- What the regular expressions look for, but for `media.?connect`.
abbrev pub auth_words : List String
auth_words = "401" ∷ "403" ∷ "unauthor" ∷ "forbidden" ∷ "jwt" ∷ "token" ∷ []

abbrev pub signal_words : List String
signal_words =
    "signal" ∷ "websocket" ∷ "failed to fetch" ∷ "server unreachable" ∷ "networkerror" ∷ []

abbrev pub ice_words : List String
ice_words =
    "peerconnection" ∷ "peer connection" ∷ "pc connection" ∷ "ice" ∷ "candidate" ∷ "dtls"
    ∷ "connection timeout" ∷ "timed out" ∷ "could not establish" ∷ []

abbrev pub encryption_words : List String
encryption_words = "e2ee" ∷ "encrypt" ∷ "key provider" ∷ "worker" ∷ []

-- `lower` is `toLowerCase`, and `has_media_connect` the test of `/media.?connect/`.
unfoldable pub failure_text : (String → String) → (String → Bool) → Collected → String
unfolding join_parts
failure_text lower has_media_connect c =
    let detail = join_parts c.parts in
    let normalized = lower detail in
    if contains "NotAllowedError" c.names || contains "SecurityError" c.names
    then "麦克风权限未开启：请允许当前网站使用麦克风后重新加入"
    else if includes_any normalized auth_words
    then "LiveKit 媒体鉴权失败：请核对 .env 与 livekit.yaml 的 API key/secret"
    else if includes_any normalized signal_words
    then "LiveKit 信令连接失败：请检查 LIVEKIT_PUBLIC_URL、证书及 7880 的 WSS 反代"
    else if includes_any normalized ice_words || has_media_connect normalized
    then "LiveKit ICE 连接失败：请检查公布的公网 IP、UDP 57882 和 TCP 57881"
    else if includes_any normalized encryption_words
    then "LiveKit 端到端加密初始化失败：请检查浏览器 E2EE 和 Worker 支持"
    else join "LiveKit 媒体连接失败：" (or_text detail "未知错误")

abbrev pub map_text : (Collected → String) → Option Collected → Option String
map_text f none = none
map_text f (some c) = some (f c)

abbrev pub nothing : Collected
nothing = record { parts = []; names = [] }

unfoldable pub media_failure_text :
    (String → String) → (String → Bool) → List ErrorObject → Value → Option String
unfolding failure_text collect_parts
media_failure_text lower has_media_connect errors value =
    map_text (failure_text lower has_media_connect)
      (collect_parts (enough errors) errors nothing (some value))

abbrev is_unavailable : Option (Option ℕ) → Bool
is_unavailable (some (some status)) = status == 503
is_unavailable _ = false

-- With how the request of `/api/v1/media-health` fails, if it does: its status, if it has one.
unfoldable pub diagnose_media_failure : Option (Option ℕ) → Option String → Option String
diagnose_media_failure health browser_diagnosis =
    if is_unavailable health
    then some "LiveKit 服务端连接失败：请检查 LIVEKIT_URL、LiveKit 进程及两处 API key/secret"
    else browser_diagnosis
