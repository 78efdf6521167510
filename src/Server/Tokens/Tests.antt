-- ===== src/Server/Tokens/Tests.antt =====
-- harness/server/auth/tokens.py and deps.py: tests.
use harness_solomon.Base.{true, none, some, List, [], ◌∷◌, ◌++◌, take, ◌≡◌, refl}
use harness_solomon.Base.Text.{Text, codes, partition, strip, lstrip, is_space, split}
use harness_solomon.Server.Scopes.{agents_read, agents_write, memory_write, is_blank, has_scope}
use harness_solomon.Server.Tokens.{TokenRow, create, revoke_token, stored_scopes, known_names}
use harness_solomon.Server.Tokens.Access.{unauthorized, bearer, require_scope}
use harness_solomon.Server.Tokens.Answers.{is_granted}
use harness_solomon.Server.Tokens.Granted.{created_grants, revoked_refused}
use harness_solomon.Server.Tokens.Lifetime.{Call, creates, looks_up, revokes, run}

-- A digest for tests: the plaintext, filled to 64 characters.
abbrev zeros : Text
zeros = codes "0000000000000000000000000000000000000000000000000000000000000000"

abbrev digest : Text → Text
digest plaintext = take 64 (plaintext ++ zeros)

abbrev row : TokenRow
row = record {
  token_hash = digest (codes "old");
  label = codes "ci";
  scopes = codes "agents.read,gone,memory.write";
  created_at = 1;
  last_used_at = none;
  revoked_at = none;
}

abbrev rows : List TokenRow
rows = row ∷ []

header : bearer (codes "BEARER  key ") ≡ some (codes "key")
unfolding bearer partition is_blank strip lstrip is_space
header = refl

skips_unknown : stored_scopes row.scopes ≡ agents_read ∷ memory_write ∷ []
unfolding stored_scopes known_names split strip lstrip is_space
skips_unknown = refl

abbrev calls : List Call
calls =
    looks_up (codes "key") 5 true
    ∷ revokes (digest (codes "old")) 6
    ∷ creates (codes "again") (some (agents_write ∷ [])) (codes "key") 7
    ∷ []

created_grants_example :
    is_granted
      (require_scope digest true
        (agents_read ∷ memory_write ∷ [])
        (run digest []
          (create digest [] rows (codes "bot") (some (memory_write ∷ [])) (codes "key") 4).0
          calls)
        (some (codes "BEARER  key "))
        9
        true).1
    ≡ true
unfolding is_blank is_space has_scope
created_grants_example =
    created_grants digest [] rows (codes "bot") (memory_write ∷ []) 107 (codes "ey") 4 calls
      (agents_read ∷ memory_write ∷ []) (codes "BEARER  key ") 9 true refl refl refl refl header

old_header : bearer (codes "Bearer old") ≡ some (codes "old")
unfolding bearer partition is_blank strip lstrip is_space
old_header = refl

abbrev mints_again : List Call
mints_again =
    creates (codes "again") (some (agents_write ∷ [])) (codes "old") 7
    ∷ looks_up (codes "old") 8 true
    ∷ []

revoked_refused_example :
    (require_scope digest true []
      (run digest [] (revoke_token (digest (codes "old")) 6 rows).0 mints_again)
      (some (codes "Bearer old"))
      9
      true).1
    ≡ unauthorized
revoked_refused_example =
    revoked_refused digest [] rows 111 (codes "ld") 6 mints_again [] (codes "Bearer old") 9 true
      refl old_header
