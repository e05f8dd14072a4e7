-- ===== src/Auth/Tests.antt =====
-- auth.py at concrete inputs.
use spark_controlplane.Prelude.{
  ◌+◌, ◌-◌, ◌≡◌, refl, String, true, false, none, some, List, [], ◌∷◌, arith, leb, leb→le, ltb→lt,
  max, string_eq, if◌then◌else◌, eq_iff,
}
use spark_controlplane.Dict.{set}
use spark_controlplane.Sessions.{is_revoked, is_known, epoch_for, cutoff, revoke_user}
use spark_controlplane.Sessions.Restart.{start, run}
use spark_controlplane.Auth.{
  Claims, claims_for, create_session, session_claims, parse_session, second, session_seconds,
  logout,
}
use spark_controlplane.Auth.Tokens.{parse_session-create_session, parse_session_sound, IsValid}
use spark_controlplane.Auth.Revocation.{parse_session-revoke_user, parse_session-logout}
use spark_controlplane.Auth.Logins.{check_throttle, max_fails, lockout}
use spark_controlplane.Auth.Samples.{settings, crypto, portal, minted, portal-Agrees, events}
use spark_controlplane.Auth.Throttle.{
  Recorded, record_all, straight_fails, check_throttle-record_all,
}

minted_test : claims_for crypto settings portal.memory 41_000_000 "bob" none "j1" ≡ minted
unfolding claims_for start set
minted_test = refl

parse_session-create_session_example :
    parse_session crypto settings portal.memory 50_000_000
      (some (create_session crypto settings portal.memory 41_000_000 "bob" none "j1"))
    ≡ some "bob"
unfolding start is_known epoch_for session_seconds set
parse_session-create_session_example =
    parse_session-create_session crypto settings portal.memory 41_000_000 "bob" "j1" 50_000_000
      (λ c. refl) (λ c. refl) refl (λ h. ground (arith, eq_iff "bob" "")) refl
      (leb→le 50_000_000
        (max 41_000_000 (epoch_for portal.memory "bob" + second) + session_seconds settings) refl)

parse_session_sound_example :
    (claims : Claims) × (crypto.decrypt (some minted) ≡ some claims)
    × (claims.u ≡ some "bob")
    × IsValid crypto settings portal.memory 50_000_000 "bob" claims
unfolding parse_session is_revoked start set
parse_session_sound_example =
    parse_session_sound crypto settings portal.memory 50_000_000 (some minted) "bob" refl

parse_session-revoke_user_test :
    parse_session crypto settings
      (run events (revoke_user true 200_000_000 201_000_000 "bob" "left" portal).1).memory
      400_000_000
      (some (some minted))
    ≡ none
unfolding cutoff start set
parse_session-revoke_user_test =
    parse_session-revoke_user crypto settings portal (some minted) "bob" "j1" minted 200_000_000
      201_000_000 "left" events 400_000_000 refl refl refl portal-Agrees
      (ltb→lt minted.iat (cutoff 200_000_000 "bob" portal.memory) refl) refl (refl, (refl, tt))

-- A second sign-out that comes before the first one's cutoff leaves the session alive.
second_sign_out_test :
    parse_session crypto settings
      (revoke_user true 42_000_000 43_000_000 "bob" "leak" portal).1.memory
      44_000_000
      (some (some minted))
    ≡ some "bob"
unfolding parse_session revoke_user is_revoked start set
second_sign_out_test = refl

parse_session-logout_example :
    parse_session crypto settings
      (run events
        (logout crypto settings true 200_000_000 201_000_000 (some (some minted)) portal).1).memory
      400_000_000
      (some (some minted))
    ≡ none
unfolding session_claims is_revoked start set
parse_session-logout_example =
    parse_session-logout crypto settings portal (some minted) "bob" "j1" minted 200_000_000
      201_000_000 events 400_000_000 refl refl refl refl refl portal-Agrees refl (refl, (refl, tt))

abbrev history : List Recorded
history =
    ("a", false, 1)
    ∷ ("b", true, 2)
    ∷ ("a", false, 3)
    ∷ ("a", false, 4)
    ∷ ("a", false, 5)
    ∷ ("a", false, 6)
    ∷ []

abbrev address : String
address = "a"

check_throttle-record_all_test : check_throttle address 10 (record_all history []) ≡ (
    let (n, t) = straight_fails address history (0, 0) in
    if leb max_fails n then t + lockout - 10 else 0)
check_throttle-record_all_test = check_throttle-record_all address history 10
