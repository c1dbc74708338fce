-- ===== src/Session/Revoked.antt =====
-- Sessions that have been revoked stay revoked, whatever happens later.
use dayfi_backend.Base.{
  ℕ, ◌+◌, ◌≡◌, ◌≢◌, refl, arith, Bool, true, false, ◌&&◌, Option, none, some, List, [], ◌∷◌, ◌++◌,
  length, ltb, if◌then◌else◌, inl, inr, Bool-cases,
}
use dayfi_backend.Base.Int.{ℤ}
use dayfi_backend.Amount.{Text}
use dayfi_backend.Session.{
  SessionRow, Store, same_text, hash_taken, open_with, open_of, revoke_where, touch, trim,
  list_active_sessions, revoke_all_sessions_for_user, create_session, validate_session_token,
  revoke_session_by_token, has_prefix, token_prefix, session_ttl,
}

-- The calls of the service.
pub data Event : Type 0 where
  create : Text → Text → ℕ → Option ℤ → Event
  validate : Text → ℕ → Event
  revoke : Text → ℕ → Event
  revoke_all : Text → ℕ → Event

unfoldable pub after : (Text → Text) → Event → Store → Store
after hash (create user random now ttl) rs = (create_session hash user random now ttl rs).1
after hash (validate token now) rs = (validate_session_token hash token now rs).1
after hash (revoke token now) rs = (revoke_session_by_token hash token now rs).1
after hash (revoke_all user now) rs = (revoke_all_sessions_for_user user now rs).1

-- The sessions after the calls, the last call first.
unfoldable pub sessions : (Text → Text) → List Event → Store → Store
sessions hash [] rs = rs
sessions hash (e ∷ es) rs = after hash e (sessions hash es rs)

-- No session with the hash can be used.
abbrev pub none_open : Text → Store → Bool
none_open h [] = true
none_open h (r ∷ rs) = (if open_with h r then false else true) && none_open h rs

-- The hash has a session, and none that can be used.
abbrev Dead : Text → Store → Type 0
Dead h rs = (hash_taken h rs ≡ true) × (none_open h rs ≡ true)

revoke_where-taken :
    (matches : SessionRow → Bool) (now : ℕ) (h : Text) (rs : Store)
    → hash_taken h rs ≡ true
    → hash_taken h (revoke_where matches now rs).1 ≡ true
unfolding revoke_where hash_taken
revoke_where-taken matches now h [] taken = taken
revoke_where-taken matches now h (r ∷ rs) taken =
    ground (arith, revoke_where-taken matches now h rs)

revoke_where-none_open :
    (matches : SessionRow → Bool) (now : ℕ) (h : Text) (rs : Store)
    → none_open h rs ≡ true
    → none_open h (revoke_where matches now rs).1 ≡ true
unfolding revoke_where open_with
revoke_where-none_open matches now h [] dead = refl
revoke_where-none_open matches now h (r ∷ rs) dead =
    ground (arith, revoke_where-none_open matches now h rs)

touch-taken :
    (g : Text) (now : ℕ) (h : Text) (rs : Store)
    → hash_taken h rs ≡ true
    → hash_taken h (touch g now rs).1 ≡ true
unfolding touch hash_taken
touch-taken g now h [] taken = taken
touch-taken g now h (r ∷ rs) taken = ground (arith, touch-taken g now h rs)

touch-none_open :
    (g : Text) (now : ℕ) (h : Text) (rs : Store)
    → none_open h rs ≡ true
    → none_open h (touch g now rs).1 ≡ true
unfolding touch open_with
touch-none_open g now h [] dead = refl
touch-none_open g now h (r ∷ rs) dead = ground (arith, touch-none_open g now h rs)

revoke_where-Dead :
    (matches : SessionRow → Bool) (now : ℕ) (h : Text) (rs : Store)
    → Dead h rs
    → Dead h (revoke_where matches now rs).1
revoke_where-Dead matches now h rs (taken, dead) =
    (revoke_where-taken matches now h rs taken, revoke_where-none_open matches now h rs dead)

touch-Dead : (g : Text) (now : ℕ) (h : Text) (rs : Store) → Dead h rs → Dead h (touch g now rs).1
touch-Dead g now h rs (taken, dead) =
    (touch-taken g now h rs taken, touch-none_open g now h rs dead)

same_text_eq : (s t : Text) → same_text s t ≡ true → s ≡ t
unfolding same_text
same_text_eq [] [] h = refl
same_text_eq (a ∷ s) (b ∷ t) h = ground (arith, same_text_eq s t)
same_text_eq [] (b ∷ t) h = absurd (ground arith)
same_text_eq (a ∷ s) [] h = absurd (ground arith)

other_hash :
    (h k : Text) (rs : Store)
    → hash_taken h rs ≡ true
    → hash_taken k rs ≡ false
    → same_text h k ≡ false
other_hash h k rs taken free = elim (Bool-cases (same_text h k)) [
  | inr other ↦ other
  | inl same ↦ absurd (ground (arith, same_text_eq h k same))
]

cons-Dead :
    (h : Text) (r : SessionRow) (rs : Store)
    → same_text h r.token_hash ≡ false
    → Dead h rs
    → Dead h (r ∷ rs)
unfolding hash_taken open_with
cons-Dead h r rs other (taken, dead) = (ground arith, ground arith)

-- The row of a new session has a hash that no row has.
create-Dead :
    (hash : Text → Text) (user random : Text) (now : ℕ) (ttl : Option ℤ) (h : Text) (rs : Store)
    → Dead h rs
    → Dead h (create_session hash user random now ttl rs).1
unfolding create_session
create-Dead hash user random now ttl h rs (taken, dead) =
    let k = hash (token_prefix ++ random) in
    elim (Bool-cases (hash_taken k rs)) [
      | inl clash ↦ (ground arith, ground arith)
      | inr free ↦
          let apart = other_hash h k rs taken free in
          let row : SessionRow = record {
            id = length rs;
            user_id = user;
            token_hash = k;
            expires_at = now + session_ttl ttl;
            revoked_at = none;
            created_at = now;
            last_used_at = now;
          } in
          let (held, shut) = cons-Dead h row rs apart (taken, dead) in (ground arith, ground arith)
    ]

validate-Dead :
    (hash : Text → Text) (token : Text) (now : ℕ) (h : Text) (rs : Store)
    → Dead h rs
    → Dead h (validate_session_token hash token now rs).1
unfolding validate_session_token
validate-Dead hash token now h rs dead =
    let (taken, shut) = touch-Dead (hash (trim token)) now h rs dead in (ground arith, ground arith)

event-Dead :
    (hash : Text → Text) (e : Event) (h : Text) (rs : Store) → Dead h rs → Dead h (after hash e rs)
unfolding after validate_session_token revoke_session_by_token revoke_all_sessions_for_user
event-Dead hash (create user random now ttl) h rs dead =
    create-Dead hash user random now ttl h rs dead
event-Dead hash (validate token now) h rs dead = validate-Dead hash token now h rs dead
event-Dead hash (revoke token now) h rs dead =
    revoke_where-Dead (open_with (hash (trim token))) now h rs dead
event-Dead hash (revoke_all user now) h rs dead = revoke_where-Dead (open_of user) now h rs dead

sessions-Dead :
    (hash : Text → Text) (es : List Event) (h : Text) (rs : Store)
    → Dead h rs
    → Dead h (sessions hash es rs)
unfolding sessions
sessions-Dead hash [] h rs dead = dead
sessions-Dead hash (e ∷ es) h rs dead =
    event-Dead hash e h (sessions hash es rs) (sessions-Dead hash es h rs dead)

touch_shut : (h : Text) (now : ℕ) (rs : Store) → none_open h rs ≡ true → touch h now rs ≡ (none, rs)
unfolding touch
touch_shut h now [] dead = refl
touch_shut h now (r ∷ rs) dead = ground (arith, touch_shut h now rs)

-- What revoking the open sessions of a hash does.
revoke_hash :
    (h : Text) (now : ℕ) (rs : Store)
    → ltb 0 (revoke_where (open_with h) now rs).0 ≡ true
    → hash_taken h (revoke_where (open_with h) now rs).1 ≡ true
unfolding revoke_where open_with hash_taken
revoke_hash h now [] some_open = absurd (ground arith)
revoke_hash h now (r ∷ rs) some_open = ground (arith, revoke_hash h now rs)

revoke_hash_all :
    (h : Text) (now : ℕ) (rs : Store) → none_open h (revoke_where (open_with h) now rs).1 ≡ true
unfolding revoke_where open_with
revoke_hash_all h now [] = refl
revoke_hash_all h now (r ∷ rs) = ground (arith, revoke_hash_all h now rs)

-- Once a token has been revoked, it is never accepted again: not after any calls that follow, at any
-- time, and even if the random part of a new token is the same.
pub revoked_forever :
    (hash : Text → Text) (token : Text) (now : ℕ) (rs rs' : Store)
    → revoke_session_by_token hash token now rs ≡ (true, rs')
    → (es : List Event) (now' : ℕ)
    → (validate_session_token hash token now' (sessions hash es rs')).0 ≡ none
unfolding revoke_session_by_token validate_session_token
revoked_forever hash token now rs rs' done es now' =
    let h = hash (trim token) in
    let updated : rs' ≡ (revoke_where (open_with h) now rs).1 = ground arith in
    let dead : Dead h rs' =
      rw updated (revoke_hash h now rs (ground arith), revoke_hash_all h now rs) in
    let later = sessions-Dead hash es h rs' dead in
    ground (arith, touch_shut h now' (sessions hash es rs') later.1)

-- No session of the user can be used.
abbrev none_of : Text → Store → Bool
none_of user [] = true
none_of user (r ∷ rs) = (if open_of user r then false else true) && none_of user rs

revoke_all-none_of :
    (user : Text) (now : ℕ) (rs : Store)
    → none_of user (revoke_where (open_of user) now rs).1 ≡ true
unfolding revoke_where open_of
revoke_all-none_of user now [] = refl
revoke_all-none_of user now (r ∷ rs) = ground (arith, revoke_all-none_of user now rs)

touched_other :
    (user h : Text) (now : ℕ) (rs : Store) (r : SessionRow)
    → none_of user rs ≡ true
    → (touch h now rs).0 ≡ some r
    → same_text user r.user_id ≡ false
unfolding touch open_of open_with
touched_other user h now [] r none_left found = absurd (ground arith)
touched_other user h now (s ∷ rs) r none_left found = ground (arith, touched_other user h now rs r)

pub same_text_refl : (s : Text) → same_text s s ≡ true
unfolding same_text
same_text_refl [] = refl
same_text_refl (a ∷ s) = ground (arith, same_text_refl s)

-- After a user has been signed out everywhere, no token is accepted for the user.
revoke_all-validate :
    (hash : Text → Text) (user : Text) (now : ℕ) (rs : Store) (now' : ℕ) (token : Text)
    (r : SessionRow)
    → (validate_session_token hash token now' (revoke_all_sessions_for_user user now rs).1).0
      ≡ some r
    → r.user_id ≢ user
unfolding revoke_all_sessions_for_user validate_session_token
revoke_all-validate hash user now rs now' token r accepted same =
    let rest = (revoke_where (open_of user) now rs).1 in
    elim (Bool-cases (has_prefix (trim token))) [
      | inr bad ↦ ground arith
      | inl good ↦ ground (
        arith,
        touched_other user (hash (trim token)) now' rest r (revoke_all-none_of user now rs),
        same_text_refl user,
      )
    ]

list_none :
    (user : Text) (now : ℕ) (rs : Store)
    → none_of user rs ≡ true
    → list_active_sessions user now rs ≡ []
unfolding list_active_sessions
list_none user now [] h = refl
list_none user now (r ∷ rs) h = ground (arith, list_none user now rs)

-- After a user has been signed out everywhere, the list of the user's active sessions is empty at any
-- time.
list-revoke_all :
    (user : Text) (now now' : ℕ) (rs : Store)
    → list_active_sessions user now' (revoke_all_sessions_for_user user now rs).1 ≡ []
unfolding revoke_all_sessions_for_user
list-revoke_all user now now' rs =
    list_none user now' (revoke_where (open_of user) now rs).1 (revoke_all-none_of user now rs)
