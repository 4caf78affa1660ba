-- ===== src/Util/Ids.antt =====
-- util/user_unix.go: the user and group ids that a text names. The user database and strconv.Atoi
-- are parameters.
use dinosaur_dns.Common.{List, [], ◌∷◌, ◌++◌, Option, none, some, Str}
use dinosaur_dns.Common.Ints.{ℤ}
use dinosaur_dns.Common.Results.{Result, ok, fail, ◌>>=◌}
use dinosaur_dns.Common.Strings.{codes, split_on}

-- user.User
pub record User : Type 0 where
  pub uid : Str
  pub gid : Str

-- user.Lookup, user.LookupId, user.LookupGroup and user.LookupGroupId, the last two by the Gid of
-- the group; `none` is an error.
pub record UserDb : Type 0 where
  pub lookup_user : Str → Option User
  pub lookup_id : Str → Option User
  pub lookup_group : Str → Option Str
  pub lookup_group_id : Str → Option Str
  pub atoi : Str → Option ℤ

unfoldable pub or_else {ℓ} : {A : Type ℓ} → Option A → Option A → Option A
or_else none other = other
or_else (some a) other = some a

unfoldable pub or_fail : {A : Type 0} → Option A → Str → Result Str A
or_fail none e = fail e
or_fail (some a) e = ok a

module _ (db : UserDb) where
  open db use {lookup_user, lookup_id, lookup_group, lookup_group_id, atoi}

  -- GetIdFromString
  unfoldable pub get_id_from_string : Str → Result Str (ℤ × ℤ)
  get_id_from_string s = do
    u ← or_fail (or_else (lookup_user s) (lookup_id s)) (codes "Invalid user: " ++ s)
    uid ← or_fail (atoi u.uid) (codes "Invalid user: " ++ s)
    gid ← or_fail (atoi u.gid) (codes "Invalid group: " ++ s)
    ok (uid, gid)

  -- GetGidFromString
  unfoldable pub get_gid_from_string : Str → Result Str ℤ
  get_gid_from_string s = do
    g ← or_fail (or_else (lookup_group s) (lookup_group_id s)) (codes "Invalid group: " ++ s)
    or_fail (atoi g) (codes "Invalid group: " ++ s)

  split_parts : Str → List Str → Result Str (ℤ × ℤ)
  split_parts s (user ∷ []) = get_id_from_string user
  split_parts s (user ∷ group ∷ []) = do
    ids ← get_id_from_string user
    gid ← get_gid_from_string group
    ok (ids.0, gid)
  split_parts s _ = fail (codes "Invalid uid:gid - " ++ s)

  -- SplitId
  unfoldable pub split_id : Str → Result Str (ℤ × ℤ)
  unfolding split_parts
  split_id s = split_parts s (split_on b':' s)
