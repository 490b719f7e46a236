-- ===== src/Lnd/Unsent.antt =====
-- A payment that never reaches the node.
use boltcard.Prelude.{ℕ, ◌≡◌, refl, [], Option, none, some, Bool, true, String, ◌∙◌}
use boltcard.Prelude.Int.{ℤ}
use boltcard.Text.{Text}
use boltcard.Text.Numbers.{atoi}
use boltcard.Externals.{Externals, Bolt11}
use boltcard.Invoice.{decode}
use boltcard.Db.Schema.{Tables, Db, Error, failed}
use boltcard.Db.Monad.{Result, ok, M, continue, pure, ◌>>=◌, ◌>>◌}
use boltcard.Db.Settings.{get_setting}
use boltcard.Db.Calls.{run}
use boltcard.Db.Keeps.{Preserved, Keeps, Keeps-pure, Keeps-raise, Keeps-bind}
use boltcard.Db.Keeps.Settings.{Keeps-get_setting, get_setting-tables, get_setting-ok}
use boltcard.Internalapi.Keeps.{Keeps-or_raise}
use boltcard.Lnurlw.Tap.{or_raise, ensure}
use boltcard.Lnd.{Node, Connection, SendPaymentRequest, get_grpc_conn}
use boltcard.Lnd.Pay.{connect, or_fails, decoded_or_fails, payment_of, pay_invoice}

-- The tables are the same.
abbrev pub unchanged : Preserved
unchanged = record { Rel = λ t u. u ≡ t; same = λ t. refl; trans = λ t u v p q. q ∙ p }

-- A connection is there at once, and no other request is served in the meantime.
pub record Reachable (node : Node) : Type 0 where
  pub macaroon : Text → Text
  pub reads : (file : Text) → node.read_file file ≡ some (macaroon file)
  pub unmarshals : (file : Text) → node.is_macaroon (macaroon file) ≡ true
  pub certified : (file host : Text) → node.is_certificate file host ≡ true
  pub dials : (file : Text) (c : Connection) → node.dial file c ≡ ([], true)

-- The node refuses the call that sends a payment.
abbrev pub Refuses : Node → Type 0
Refuses node =
    (c : Connection) (t : ℤ) (q : SendPaymentRequest) → node.send_payment c t q ≡ ([], none)

-- The action returns a value and changes no table.
record Works {A : Type 0} (m : M A) : Type 0 where
  at : (db : Db) → (a : A) × (((m db).0 ≡ ok a) × ((m db).1.tables ≡ db.tables))

Works-pure : {A : Type 0} (a : A) → Works (pure a)
Works-pure a = record { at = λ db. (a, (refl, refl)) }

Works-bind :
    {A B : Type 0} (m : M A) (f : A → M B) → Works m → ((a : A) → Works (f a)) → Works (m >>= f)
Works-bind {A = A} {B = B} m f wm wf = record {
  at = λ db. continued db.tables (m db).0 (m db).1 (wm.at db);
}
  where
    continued :
        (t : Tables) (r : Result A) (db : Db)
        → (a : A) × ((r ≡ ok a) × (db.tables ≡ t))
        → (b : B) × (((continue r f db).0 ≡ ok b) × ((continue r f db).1.tables ≡ t))
    continued t r db (a, (e, same)) =
        let (b, (e', same')) = (wf a).at db in (b, (rw e e', rw e (same' ∙ same)))

Works-some :
    {A B : Type 0} (o : Option A) (a : A) (e : Error) (f : A → M B)
    → o ≡ some a
    → Works (f a)
    → Works (or_raise o e >>= f)
Works-some o a e f is w = rw is w

Works-ensure :
    {A : Type 0} (b : Bool) (e : Error) (m : M A) → b ≡ true → Works m → Works (ensure b e >> m)
Works-ensure b e m is w = rw is w

Works-get_setting : (name : String) → Works (get_setting name)
Works-get_setting name = record {
  at = λ db. let (value, e) = get_setting-ok name db in (value, (e, get_setting-tables name db));
}

module _ (node : Node) (reach : Reachable node) where
  get_grpc_conn-Works :
      (host : Text) (port : ℤ) (tls file : Text) → Works (get_grpc_conn node host port tls file)
  unfolding get_grpc_conn run
  get_grpc_conn-Works host port tls file =
      Works-some _ (reach.macaroon file) _ _ (reach.reads file) (
        Works-ensure (node.is_macaroon (reach.macaroon file)) _ _ (reach.unmarshals file) (
          Works-ensure (node.is_certificate tls host) _ _ (reach.certified tls host)
            (rw (reach.dials) (Works-pure _))))

  connect-Works : (port : ℤ) → Works (connect node port)
  unfolding connect
  connect-Works port = Works-bind _ _ (Works-get_setting _) λ host.
      Works-bind _ _ (Works-get_setting _)
        λ tls. Works-bind _ _ (Works-get_setting _) λ file. get_grpc_conn-Works host port tls file

Keeps-or_fails :
    {A : Type 0} (m : M A) (id : ℕ) (reason : String)
    → Works m
    → Keeps unchanged (or_fails m id reason)
unfolding or_fails
Keeps-or_fails m id reason w = record {
  at = λ db. let (a, (e, same)) = w.at db in rw (or_fails, e) same;
}

Keeps-payment_of :
    (node : Node) (x : Externals) (id : ℕ) (invoice : Text) (b : Bolt11)
    → decode x invoice ≡ some b
    → Keeps unchanged (payment_of node x id invoice)
unfolding payment_of decoded_or_fails
Keeps-payment_of node x id invoice b decoded = Keeps-bind _ _ (Keeps-get_setting _) λ sats.
    Keeps-bind _ _ (Keeps-or_raise _ _) λ n. Keeps-bind _ _ (Keeps-get_setting _) λ percent.
      Keeps-bind _ _ (Keeps-or_raise _ _) λ f.
        Keeps-bind (decoded_or_fails (decode x invoice) id) _ (rw decoded (Keeps-pure b))
          λ bolt11. Keeps-pure _

-- A payment that is not sent is not recorded as failed. Where the node can be reached and refuses
-- the call that would send the payment, and the invoice can be decoded, `PayInvoice` changes no
-- table, whatever the settings LN_PORT, FEE_LIMIT_SAT and FEE_LIMIT_PERCENT say and whatever the
-- faults of the database. So a claimed payment still counts in the balance and in the daily total.
pub pay_invoice-unsent :
    (node : Node) (x : Externals) (id : ℕ) (invoice : Text) (b : Bolt11) (db : Db)
    → Reachable node
    → Refuses node
    → decode x invoice ≡ some b
    → (pay_invoice node x id invoice db).1.tables ≡ db.tables
unfolding pay_invoice run
pay_invoice-unsent node x id invoice b db reach refuses decoded =
    (Keeps-bind {k = unchanged} (get_setting "LN_PORT") _ (Keeps-get_setting _) λ port.
        Keeps-bind (or_raise (atoi port) failed) _ (Keeps-or_raise _ _) λ ln_port.
          Keeps-bind (or_fails (connect node ln_port) id "could not reach the lightning node") _
            (Keeps-or_fails _ _ _ (connect-Works node reach ln_port))
            λ connection.
              Keeps-bind (payment_of node x id invoice) _
                (Keeps-payment_of node x id invoice b decoded)
                λ (timeout, payment). rw (refuses connection timeout payment) (Keeps-raise _)).at
      db
