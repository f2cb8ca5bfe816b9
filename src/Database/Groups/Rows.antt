-- ===== src/Database/Groups/Rows.antt =====
-- The SQL statements on `groups` and `group_members` of common/Database.cpp, with their keys.
use protokol_javni_prevoz.Prelude.{
  ℕ, suc, ◌+◌, Bool, true, false, not, ◌&&◌, ◌||◌, Option, none, some, List, [], ◌∷◌, ◌++◌, ◌==◌,
  if◌then◌else◌,
}
use protokol_javni_prevoz.Text.{Str, eq_str}
use protokol_javni_prevoz.Database.Rows.{Group, Member, Tables}
use protokol_javni_prevoz.Database.Users.{has_user}
use protokol_javni_prevoz.Database.{sqlite_done, sqlite_constraint, Statement}

-- SELECT ... FROM groups WHERE group_name = ? LIMIT 1
unfoldable pub find_group : Str → List Group → Option Group
find_group name [] = none
find_group name (g ∷ gs) = if eq_str g.group_name name then some g else find_group name gs

-- SELECT ... FROM groups WHERE group_name = ? AND active = 1 LIMIT 1
unfoldable pub find_active_group : Str → List Group → Option Group
find_active_group name [] = none
find_active_group name (g ∷ gs) =
    if eq_str g.group_name name && g.active then some g else find_active_group name gs

unfoldable pub has_group : ℕ → List Group → Bool
has_group id [] = false
has_group id (g ∷ gs) = g.group_id == id || has_group id gs

unfoldable pub is_some {ℓ} : {A : Type ℓ} → Option A → Bool
is_some none = false
is_some (some a) = true

-- INSERT INTO groups: the name is unique, the leader a user, the id the next of its sequence.
unfoldable pub insert_group : {R : Type 0} → Bool → Str → Str → Str → Bool → Statement R
unfolding is_some
insert_group foreign_keys name leader created active t =
    if is_some (find_group name t.groups) || foreign_keys && not (has_user leader t.users)
    then (sqlite_constraint, 0, t)
    else (
      sqlite_done,
      1,
      record t { groups = t.groups ++ new ∷ []; next_group_id = suc t.next_group_id },
    )
  where
    new : Group
    new = record {
      group_id = t.next_group_id;
      group_name = name;
      leader_urn = leader;
      creation_date = created;
      active = active;
    }

abbrev pub has_key : ℕ → Str → Member → Bool
has_key id urn m = m.group_id == id && eq_str m.member_urn urn

-- SELECT active FROM group_members WHERE group_id=? AND member_urn=? LIMIT 1
unfoldable pub find_member : ℕ → Str → List Member → Option Member
find_member id urn [] = none
find_member id urn (m ∷ ms) = if has_key id urn m then some m else find_member id urn ms

unfoldable pub count_members : ℕ → Str → List Member → ℕ
count_members id urn [] = 0
count_members id urn (m ∷ ms) = (if has_key id urn m then 1 else 0) + count_members id urn ms

unfoldable pub without_member : ℕ → Str → List Member → List Member
without_member id urn [] = []
without_member id urn (m ∷ ms) =
    let rest = without_member id urn ms in if has_key id urn m then rest else m ∷ rest

unfoldable pub activate : ℕ → Str → Str → List Member → List Member
activate id urn joined [] = []
activate id urn joined (m ∷ ms) =
    (if has_key id urn m then record m { active = true; join_date = joined } else m)
    ∷ activate id urn joined ms

abbrev new_member : ℕ → Str → Str → Member
new_member id urn joined = record {
  group_id = id;
  member_urn = urn;
  join_date = joined;
  active = true;
}

unfoldable pub dangling : {R : Type 0} → Bool → ℕ → Str → Tables R → Bool
dangling foreign_keys id urn t = foreign_keys && not (has_group id t.groups && has_user urn t.users)

-- INSERT OR REPLACE INTO group_members
unfoldable pub put_member : {R : Type 0} → Bool → ℕ → Str → Str → Statement R
unfolding dangling
put_member foreign_keys id urn joined t =
    if dangling foreign_keys id urn t then (sqlite_constraint, 0, t) else (
      sqlite_done,
      1,
      record t {
        group_members = without_member id urn t.group_members ++ new_member id urn joined ∷ [];
      },
    )

-- INSERT INTO group_members
unfoldable pub insert_member : {R : Type 0} → Bool → ℕ → Str → Str → Statement R
unfolding dangling is_some
insert_member foreign_keys id urn joined t =
    if is_some (find_member id urn t.group_members) || dangling foreign_keys id urn t
    then (sqlite_constraint, 0, t)
    else (
      sqlite_done,
      1,
      record t { group_members = t.group_members ++ new_member id urn joined ∷ [] },
    )

-- UPDATE group_members SET active=1, join_date=? WHERE group_id=? AND member_urn=?
unfoldable pub reactivate_member : {R : Type 0} → ℕ → Str → Str → Statement R
reactivate_member id urn joined t = (
  sqlite_done,
  count_members id urn t.group_members,
  record t { group_members = activate id urn joined t.group_members },
)

-- DELETE FROM group_members WHERE group_id = ? AND member_urn = ?
unfoldable pub delete_member : {R : Type 0} → ℕ → Str → Statement R
delete_member id urn t = (
  sqlite_done,
  count_members id urn t.group_members,
  record t { group_members = without_member id urn t.group_members },
)
