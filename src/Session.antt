-- ===== src/Session.antt =====
-- src/modules/four/auth/sessionService.ts: sessions by an opaque token, of which only a hash is stored.
-- Times are counts of microseconds, and `now` is an argument. The hash is that of a library, and a
-- parameter. A text is the list of its character codes.
pub mod Revoked
pub mod Issued
mod Tests
use dayfi_backend.Base.{
  ℕ, suc, ◌+◌, Bool, true, false, ◌&&◌, Option, none, some, List, [], ◌∷◌, ◌++◌, length, ltb, leb,
  ◌==◌, ◌*◌, if◌then◌else◌, is_null,
}
use dayfi_backend.Base.Int.{ℤ, pos, pos_part, ltb_ℤ}
use dayfi_backend.Amount.{Text, trim_start, trim_end}

abbrev pub token_prefix : Text
token_prefix = b'f' ∷ b's' ∷ b'_' ∷ []

-- `raw.startsWith(TOKEN_PREFIX)`
unfoldable pub has_prefix : Text → Bool
has_prefix (a ∷ b ∷ c ∷ s) = a == b'f' && (b == b's' && c == b'_')
has_prefix s = false

abbrev pub day : ℕ
day = 86400000000

-- `sessionTtlDays`, in microseconds; the setting is none if it is no finite number.
unfoldable pub session_ttl : Option ℤ → ℕ
session_ttl none = 30 * day
session_ttl (some raw) = if ltb_ℤ (pos 0) raw then pos_part raw else 30 * day

-- A row of `four_sessions`; its number stands for its generated UUID.
pub record SessionRow : Type 0 where
  pub id : ℕ
  pub user_id : Text
  pub token_hash : Text
  pub expires_at : ℕ
  pub revoked_at : Option ℕ
  pub created_at : ℕ
  pub last_used_at : ℕ

-- What the client is given, the token included.
pub record IssuedSession : Type 0 where
  pub row : SessionRow
  pub token : Text

abbrev pub Store : Type 0
Store = List SessionRow

unfoldable pub same_text : Text → Text → Bool
same_text [] [] = true
same_text (a ∷ s) (b ∷ t) = a == b && same_text s t
same_text [] (b ∷ t) = false
same_text (a ∷ s) [] = false

unfoldable pub hash_taken : Text → Store → Bool
hash_taken h [] = false
hash_taken h (r ∷ rs) = if same_text h r.token_hash then true else hash_taken h rs

-- `token_hash = $1 AND revoked_at IS NULL`
unfoldable pub open_with : Text → SessionRow → Bool
open_with h r = same_text h r.token_hash && is_null r.revoked_at

-- `user_id = $1 AND revoked_at IS NULL`
unfoldable pub open_of : Text → SessionRow → Bool
open_of user r = same_text user r.user_id && is_null r.revoked_at

abbrev pub revoked : ℕ → SessionRow → SessionRow
revoked now r = record r { revoked_at = some now }

-- The update that revokes the rows that match, and how many those are.
unfoldable pub revoke_where : (SessionRow → Bool) → ℕ → Store → ℕ × Store
revoke_where matches now [] = (0, [])
revoke_where matches now (r ∷ rs) =
    let (count, rest) = revoke_where matches now rs in
    if matches r then (suc count, revoked now r ∷ rest) else (count, r ∷ rest)

-- The update that touches the session that matches, and that session.
unfoldable pub touch : Text → ℕ → Store → Option SessionRow × Store
touch h now [] = (none, [])
touch h now (r ∷ rs) =
    let (found, rest) = touch h now rs in
    if open_with h r && ltb now r.expires_at
    then (some r, record r { last_used_at = now } ∷ rest)
    else (found, r ∷ rest)

unfoldable pub trim : Text → Text
unfolding trim_start trim_end
trim s = trim_start (trim_end s)

-- `ORDER BY last_used_at DESC`
unfoldable pub insert_by_use : SessionRow → List SessionRow → List SessionRow
insert_by_use r [] = r ∷ []
insert_by_use r (s ∷ ss) =
    let rest = insert_by_use r ss in
    if ltb r.last_used_at s.last_used_at then s ∷ rest else r ∷ s ∷ ss

unfoldable pub list_active_sessions : Text → ℕ → Store → List SessionRow
list_active_sessions user now [] = []
list_active_sessions user now (r ∷ rs) =
    let rest = list_active_sessions user now rs in
    if open_of user r && ltb now r.expires_at then insert_by_use r rest else rest

unfoldable pub revoke_all_sessions_for_user : Text → ℕ → Store → ℕ × Store
revoke_all_sessions_for_user user now rs = revoke_where (open_of user) now rs

module _ (hash_token : Text → Text) where
  -- `createSession`, with the random part of the token; none if the hash of the token is taken, which
  -- the unique column refuses.
  unfoldable pub create_session : Text → Text → ℕ → Option ℤ → Store → Option IssuedSession × Store
  create_session user random now ttl rs =
      let token = token_prefix ++ random in
      let row : SessionRow = record {
        id = length rs;
        user_id = user;
        token_hash = hash_token token;
        expires_at = now + session_ttl ttl;
        revoked_at = none;
        created_at = now;
        last_used_at = now;
      } in
      if hash_taken (hash_token token) rs
      then (none, rs)
      else (some (record { row = row; token = token }), row ∷ rs)

  unfoldable pub validate_session_token : Text → ℕ → Store → Option SessionRow × Store
  validate_session_token token now rs =
      if has_prefix (trim token) then touch (hash_token (trim token)) now rs else (none, rs)

  unfoldable pub revoke_session_by_token : Text → ℕ → Store → Bool × Store
  revoke_session_by_token token now rs =
      let (count, rest) = revoke_where (open_with (hash_token (trim token))) now rs in
      (ltb 0 count, rest)
