-- ===== src/Session/Tests.antt =====
-- Runs of sessionService.ts with a hash that reverses the token, and the theorems at those inputs.
use dayfi_backend.Base.{ℕ, ◌+◌, ◌*◌, ◌≡◌, refl, arith, Option, some, none, List, [], ◌∷◌, ◌++◌}
use dayfi_backend.Base.Int.{pos}
use dayfi_backend.Amount.{Text, trim_start, trim_end}
use dayfi_backend.FeeQuote.{codes}
use dayfi_backend.Session.{
  SessionRow, IssuedSession, Store, day, session_ttl, token_prefix, create_session,
  validate_session_token, revoke_session_by_token, revoke_all_sessions_for_user,
  list_active_sessions, insert_by_use, hash_taken, same_text, open_with, open_of, revoke_where,
  touch, trim, has_prefix,
}
use dayfi_backend.Session.Revoked.{Event, create, after, sessions, revoked_forever}
use dayfi_backend.Session.Issued.{create-validate}

-- Stands for the hash.
abbrev reverse_text : Text → Text
reverse_text [] = []
reverse_text (c ∷ s) = reverse_text s ++ c ∷ []

abbrev token : Text
token = token_prefix ++ codes "a1"

-- Two users, the first of which has two sessions.
abbrev calls : List Event
calls =
    create (codes "u2") (codes "b1") 2 none
    ∷ create (codes "u1") (codes "a2") 1 (some (pos 5))
    ∷ create (codes "u1") (codes "a1") 0 none
    ∷ []

abbrev three : Store
three = sessions reverse_text calls []

-- Opens all that a run computes with.
opened : ℕ
unfolding sessions after create_session validate_session_token revoke_session_by_token
    revoke_all_sessions_for_user list_active_sessions insert_by_use hash_taken same_text open_with
    open_of revoke_where touch trim trim_start trim_end has_prefix session_ttl
opened = 0

two_revoked : (revoke_all_sessions_for_user (codes "u1") 3 three).0 ≡ 2
unfolding opened
two_revoked = refl

expired : (validate_session_token reverse_text (token_prefix ++ codes "a2") 6 three).0 ≡ none
unfolding opened
expired = refl

revoked_forever_example :
    (validate_session_token reverse_text token 9 (
      sessions reverse_text
        (create (codes "u1") (codes "a1") 8 none ∷ [])
        (revoke_session_by_token reverse_text token 4 three).1)).0
    ≡ none
unfolding opened
revoked_forever_example =
    revoked_forever reverse_text token 4 three
      (revoke_session_by_token reverse_text token 4 three).1 refl
      (create (codes "u1") (codes "a1") 8 none ∷ []) 9

-- The session of the other user.
abbrev other : SessionRow
other = record {
  id = 2;
  user_id = codes "u2";
  token_hash = reverse_text (token_prefix ++ codes "b1");
  expires_at = 2 + 30 * day;
  revoked_at = none;
  created_at = 2;
  last_used_at = 2;
}

abbrev made : Option IssuedSession × Store
made = create_session reverse_text (codes "u3") (codes "c1") 5 (some (pos 10)) three

abbrev issued : IssuedSession
issued = record {
  row = record {
    id = 3;
    user_id = codes "u3";
    token_hash = reverse_text (token_prefix ++ codes "c1");
    expires_at = 15;
    revoked_at = none;
    created_at = 5;
    last_used_at = 5;
  };
  token = token_prefix ++ codes "c1";
}

create-validate_example :
    ((validate_session_token reverse_text issued.token 14 made.1).0 ≡ some issued.row)
    × (issued.row.user_id ≡ codes "u3")
    × (issued.row.token_hash ≡ reverse_text issued.token)
    × (issued.row.expires_at ≡ 5 + session_ttl (some (pos 10)))
unfolding opened
create-validate_example =
    create-validate reverse_text (codes "u3") (codes "c1") 5 (some (pos 10)) three made.1 issued 14
      refl refl (omega arith)
