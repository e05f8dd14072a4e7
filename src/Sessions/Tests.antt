-- ===== src/Sessions/Tests.antt =====
-- sessions.py at concrete inputs.
use spark_controlplane.Prelude.{
  ◌≤◌, ◌≡◌, refl, String, true, false, ◌&&◌, ◌||◌, some, List, [], ◌∷◌, arith, ltb, ◌==◌, eq_iff,
  string_eq,
}
use spark_controlplane.Dict.{set}
use spark_controlplane.Sessions.{
  SessionRevocation, Store, jti_row, epoch_row, load, is_revoked, cutoff, revoke_user,
  global_subject,
}
use spark_controlplane.Sessions.Views.{has}
use spark_controlplane.Sessions.Restart.{
  Agrees, Event, logout, sign_out, restart, crash, start, run, start-Agrees,
}
use spark_controlplane.Sessions.Answers.{is_revoked-run, is_revoked-restart, is_revoked-revoke_user}

abbrev rows : List SessionRevocation
rows =
    jti_row "old" 50 "logout" 5
    ∷ jti_row "kept" 900 "logout" 10
    ∷ epoch_row "bob" 100 "leak" 100
    ∷ []

abbrev portal : Store
portal = start 200 rows

portal-Agrees : Agrees "kept" 900 portal
portal-Agrees =
    start-Agrees "kept" 900 200 rows (λ h. ground arith, (λ h. refl, (λ h. ground arith, tt)))

-- The expired row is swept.
swept_test : has "old" portal.memory.revoked ≡ false
unfolding start load has set
swept_test = refl

abbrev events : List Event
events =
    logout true 210 211 "other" 950 "logout"
    ∷ sign_out false 220 221 "bob" "leak"
    ∷ crash 230 (epoch_row "ann" 230 "leak" 230) 240
    ∷ restart 250
    ∷ []

is_revoked-run_example : is_revoked (run events portal).memory "ann" (some "kept") 150 ≡ true
unfolding is_revoked start set
is_revoked-run_example =
    is_revoked-run "kept" 900 events portal "ann" 150 portal-Agrees
      (
        (refl, λ h. ground (arith, eq_iff "other" "kept")),
        (refl, ((refl, refl, (λ h. ground arith, tt)), (refl, tt))),
      )
      refl

is_revoked-restart_test :
    is_revoked (run (restart 300 ∷ []) (run events portal)).memory "bob" (some "kept") 150
    ≡ is_revoked (run events portal).memory "bob" (some "kept") 150
is_revoked-restart_test =
    is_revoked-restart "kept" 900 200 300 rows events "bob" 150
      (λ h. ground arith, (λ h. refl, (λ h. ground arith, tt)))
      (
        (refl, λ h. ground (arith, eq_iff "other" "kept")),
        (refl, ((refl, refl, (λ h. ground arith, tt)), (refl, tt))),
      )
      refl

abbrev who : String
who = "bob"

is_revoked-revoke_user_example :
    ((revoke_user true 400 401 who "left" portal).0 ≡ some (cutoff 400 who portal.memory))
    × (is_revoked (revoke_user true 400 401 who "left" portal).1.memory "bob" (some "kept") 350 ≡ (
        is_revoked portal.memory "bob" (some "kept") 350
        || ((who == who) || (who == global_subject)) && ltb 350 (cutoff 400 who portal.memory)))
    × (400 ≤ cutoff 400 who portal.memory)
is_revoked-revoke_user_example =
    is_revoked-revoke_user "kept" 900 400 401 who "left" portal "bob" 350 portal-Agrees refl
