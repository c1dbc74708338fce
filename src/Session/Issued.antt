-- ===== src/Session/Issued.antt =====
-- A session that has just been created is the one that its token gives.
use dayfi_backend.Base.{ℕ, ◌+◌, ◌<◌, ◌≡◌, refl, arith, true, Option, none, some, ◌∷◌, ◌++◌}
use dayfi_backend.Base.Int.{ℤ}
use dayfi_backend.Amount.{Text}
use dayfi_backend.Amount.RoundTrip.{no_spaces, trim_no_spaces}
use dayfi_backend.Session.{
  SessionRow, IssuedSession, Store, same_text, open_with, touch, trim, create_session,
  validate_session_token, has_prefix, token_prefix, session_ttl,
}
use dayfi_backend.Session.Revoked.{same_text_refl}

touch_created :
    (h : Text) (now : ℕ) (r : SessionRow) (rs : Store)
    → same_text h r.token_hash ≡ true
    → r.revoked_at ≡ none
    → now < r.expires_at
    → (touch h now (r ∷ rs)).0 ≡ some r
unfolding touch open_with
touch_created h now r rs same live early = ground arith

token_read :
    (random : Text)
    → no_spaces random ≡ true
    → (trim (token_prefix ++ random) ≡ token_prefix ++ random)
      × (has_prefix (token_prefix ++ random) ≡ true)
unfolding trim has_prefix
token_read random plain = (trim_no_spaces (token_prefix ++ random) (ground arith), refl)

created :
    (hash : Text → Text) (user random : Text) (now : ℕ) (ttl : Option ℤ) (rs rs' : Store)
    (s : IssuedSession)
    → create_session hash user random now ttl rs ≡ (some s, rs')
    → (s.token ≡ token_prefix ++ random)
      × (rs' ≡ s.row ∷ rs)
      × (s.row.user_id ≡ user)
      × (s.row.token_hash ≡ hash s.token)
      × (s.row.expires_at ≡ now + session_ttl ttl)
      × (s.row.revoked_at ≡ none)
unfolding create_session
created hash user random now ttl rs rs' s made =
    (ground arith, ground arith, ground arith, ground arith, ground arith, ground arith)

validated :
    (hash : Text → Text) (random : Text) (now : ℕ) (r : SessionRow) (rs : Store)
    → no_spaces random ≡ true
    → r.token_hash ≡ hash (token_prefix ++ random)
    → r.revoked_at ≡ none
    → now < r.expires_at
    → (validate_session_token hash (token_prefix ++ random) now (r ∷ rs)).0 ≡ some r
unfolding validate_session_token
validated hash random now r rs plain stored live early =
    let (clean, prefixed) = token_read random plain in
    ground (
      arith,
      same_text_refl (hash (token_prefix ++ random)),
      touch_created (hash (token_prefix ++ random)) now r rs,
    )

-- The token of a session that has been created, of a random part without white space, is accepted
-- until the session expires, and gives that session. Its row has the user and the hash of the token,
-- and expires after the time that is set.
pub create-validate :
    (hash : Text → Text) (user random : Text) (now : ℕ) (ttl : Option ℤ) (rs rs' : Store)
    (s : IssuedSession) (now' : ℕ)
    → no_spaces random ≡ true
    → create_session hash user random now ttl rs ≡ (some s, rs')
    → now' < now + session_ttl ttl
    → ((validate_session_token hash s.token now' rs').0 ≡ some s.row)
      × (s.row.user_id ≡ user)
      × (s.row.token_hash ≡ hash s.token)
      × (s.row.expires_at ≡ now + session_ttl ttl)
create-validate hash user random now ttl rs rs' s now' plain made early =
    let (token, rows, user_same, stored, expiry, live) =
      created hash user random now ttl rs rs' s made in
    let accepted = validated hash random now' s.row rs plain (ground arith) live (ground arith) in
    (ground arith, user_same, stored, expiry)
