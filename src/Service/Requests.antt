-- ===== src/Service/Requests.antt =====
-- The other handlers as histories.
use boltcard.Prelude.{not, [], Option}
use boltcard.Text.{Text, text_eq}
use boltcard.Externals.{Externals}
use boltcard.Http.{Request, get_param}
use boltcard.Db.Runs.{Runs, Runs-bind, Runs-pure, Runs-ensure, runs_rules}
use boltcard.Db.Runs.Calls.{call_runs, get_setting-Runs, get_new_card-Runs}
use boltcard.Approve.{approve_request}
use boltcard.Program.{new_card_request}
use boltcard.Lnurlw.Request.{response}
use boltcard.Lnurlw.Tap.Runs.{parse_request-Runs}

pub response-Runs :
    (x : Externals) (random : Option Text) (r : Request) → Runs (response x random r)
unfolding response
response-Runs x random r = search (runs_rules, call_runs, parse_request-Runs) depth 60

pub approve_request-Runs : (r : Request) → Runs (approve_request r)
unfolding approve_request
approve_request-Runs r = search (runs_rules, call_runs) depth 40

pub new_card_request-Runs : (r : Request) → Runs (new_card_request r)
unfolding new_card_request
new_card_request-Runs r = Runs-bind _ _ (Runs-ensure (not (text_eq (get_param "a" r) [])) _) λ _.
    Runs-bind _ _ (get_setting-Runs _) λ host.
      Runs-bind _ _ (record { at = λ db. (get_new_card-Runs (get_param "a" r)).at db })
        λ c. Runs-bind _ _ (get_setting-Runs _) λ k1. Runs-pure _
