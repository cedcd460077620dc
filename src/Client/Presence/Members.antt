-- ===== src/Client/Presence/Members.antt =====
-- `displayMembers` of frontend/src/client/presence.ts.
use dawn_mesh_server.Prelude.{Bool, true, List, [], ◌∷◌, Option, none, some, String}
use dawn_mesh_server.Prelude.Maps.{string_eq, number_eq, contains, get}
use dawn_mesh_server.Client.Presence.{Member, ActiveRoom, put_members}

abbrev pub or_true : Option Bool → Bool
or_true none = true
or_true (some connected) = connected

-- The identities of a connected room's participants, or `none`.
abbrev pub shown_connected : Option (List String) → List (String × Bool) → String → Bool
shown_connected (some ids) previous id = contains id ids
shown_connected none previous id = or_true (get id previous)

unfoldable pub display_from :
    Option (List String) → List (String × Bool) → List Member → List Member
display_from ids previous [] = []
display_from ids previous (m ∷ members) =
    record m { connected = shown_connected ids previous m.id } ∷ display_from ids previous members

-- `displayMembers`, with the room's entry of `displayedOnline`; `remote` are the identities of the
-- other participants while the room is connected.
unfoldable pub display_members :
    ActiveRoom
    → Option (List String)
    → List Member
    → List (String × Bool)
    → List Member × List (String × Bool)
display_members active none members previous =
    let shown = display_from none previous members in (shown, put_members shown [])
display_members active (some remote) members previous =
    let shown = display_from (some (active.member_id ∷ remote)) previous members in
    (shown, put_members shown [])
