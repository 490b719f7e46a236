-- ===== src/Lnurlw/Callback/Runs.antt =====
-- The checks of a callback are a history.
use boltcard.Prelude.{ℕ, [], ◌∷◌, List}
use boltcard.Text.{Text}
use boltcard.Externals.{Externals, Bolt11}
use boltcard.Http.{Request}
use boltcard.Db.Schema.{Card, Payment}
use boltcard.Db.Runs.{Runs, Runs-raise, runs_rules}
use boltcard.Db.Runs.Calls.{call_runs}
use boltcard.Lnurlw.Callback.{login_parts, check_pin, check_testnode, checked_callback}

pub login_parts-Runs : (parts : List Text) → Runs (login_parts parts)
unfolding login_parts
login_parts-Runs [] = Runs-raise _
login_parts-Runs (login ∷ []) = Runs-raise _
login_parts-Runs (login ∷ password ∷ []) = search (runs_rules) depth 10
login_parts-Runs (login ∷ password ∷ more ∷ rest) = Runs-raise _

check_pin-Runs : (p : Payment) (c : Card) (sats : ℕ) (pin : Text) → Runs (check_pin p c sats pin)
unfolding check_pin
check_pin-Runs p c sats pin = search (runs_rules, call_runs) depth 20

check_testnode-Runs : (b : Bolt11) (testnode : Text) → Runs (check_testnode b testnode)
unfolding check_testnode
check_testnode-Runs b testnode = search (runs_rules) depth 10

pub checked_callback-Runs : (x : Externals) (r : Request) → Runs (checked_callback x r)
unfolding checked_callback
checked_callback-Runs x r =
    search (runs_rules, call_runs, check_pin-Runs, check_testnode-Runs) depth 80
