-- ===== src/Client/Presence/Display.antt =====
-- Which members frontend/src/client/presence.ts shows as connected.
use dawn_mesh_server.Prelude.{
  ◌≡◌, refl, ap, ap₂, ◌∙◌, Bool, true, false, List, [], ◌∷◌, Option, none, some, String,
  if◌then◌else◌, All,
}
use dawn_mesh_server.Prelude.Maps.{◌===◌, string_eq, get, put, get-put, get-put_self}
use dawn_mesh_server.Client.Presence.{Member, ActiveRoom, put_members}
use dawn_mesh_server.Client.Presence.Members.{
  shown_connected, display_from, display_members, or_true,
}

get-kept :
    (ids : Option (List String)) (previous : List (String × Bool)) (members : List Member)
    (next : List (String × Bool)) (id : String)
    → get id next ≡ some (shown_connected ids previous id)
    → get id (put_members (display_from ids previous members) next)
      ≡ some (shown_connected ids previous id)
unfolding put_members display_from
get-kept ids previous [] next id h = h
get-kept ids previous (m ∷ members) next id h =
    let status = shown_connected ids previous m.id in
    get-kept ids previous members (put m.id status next) id
      (get-put m.id id status next ∙ by_id (m.id === id) refl)
  where
    by_id :
        (same : Bool)
        → (m.id === id) ≡ same
        → (if same then some (shown_connected ids previous m.id) else get id next)
          ≡ some (shown_connected ids previous id)
    by_id true e = ap (λ j. some (shown_connected ids previous j)) ((string_eq.beq_iff m.id id).0 e)
    by_id false e = h

All-kept :
    (ids : Option (List String)) (previous : List (String × Bool)) (members : List Member)
    (next : List (String × Bool))
    → All
        (λ m.
          get m.id (put_members (display_from ids previous members) next)
          ≡ some (shown_connected ids previous m.id))
        members
unfolding put_members display_from
All-kept ids previous [] next = tt
All-kept ids previous (m ∷ members) next =
    let status = shown_connected ids previous m.id in
    (
      get-kept ids previous members (put m.id status next) m.id (get-put_self m.id status next),
      All-kept ids previous members (put m.id status next),
    )

display-kept :
    (ids : Option (List String)) (previous table : List (String × Bool)) (members : List Member)
    → All (λ m. get m.id table ≡ some (shown_connected ids previous m.id)) members
    → display_from none table members ≡ display_from ids previous members
unfolding display_from
display-kept ids previous table [] h = refl
display-kept ids previous table (m ∷ members) h =
    ap₂ (λ (c : Bool) (rest : List Member). record m { connected = c } ∷ rest) (ap or_true h.0)
      (display-kept ids previous table members h.1)

-- While the media connection is away the members are shown as they last were: showing the same
-- members again without it gives what was shown, whether the connection was there then or not.
pub display_members_frozen :
    (active : ActiveRoom) (remote : Option (List String)) (members : List Member)
    (previous : List (String × Bool))
    → (display_members active none members (display_members active remote members previous).1).0
      ≡ (display_members active remote members previous).0
unfolding display_members
display_members_frozen active none members previous =
    display-kept none previous (put_members (display_from none previous members) []) members
      (All-kept none previous members [])
display_members_frozen active (some remote) members previous =
    let ids = some (active.member_id ∷ remote) in
    display-kept ids previous (put_members (display_from ids previous members) []) members
      (All-kept ids previous members [])
