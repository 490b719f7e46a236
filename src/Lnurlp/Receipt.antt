-- ===== src/Lnurlp/Receipt.antt =====
-- What a deposit that is answered has asked of the node, and what it has recorded.
use mathlib.Core.Option.{some-injective}
use mathlib.Core.Path.{subst}
use boltcard.Prelude.{
  ℕ, ◌/◌, ◌%◌, ◌≤◌, ◌≡◌, refl, sym, ◌∙◌, Bool, true, false, not, ◌||◌, List, ◌∷◌, none, some, ◌==◌,
  arith, ap, if◌then◌else◌,
}
use boltcard.Prelude.Int.{ℤ, pos, negsuc, pos_part, quot_ℤ, ltb_ℤ}
use boltcard.Text.{Text, text_eq, text_eq_iff, codes, pad}
use boltcard.Text.Hex.{encode_to_string}
use boltcard.Text.Numbers.{atoi}
use boltcard.Http.{Request, get_param}
use boltcard.Db.Schema.{Tables, Db, ReceiptRow, failed, message}
use boltcard.Db.Monad.{ok, checked, pure, ◌>>=◌}
use boltcard.Db.Settings.{get_setting}
use boltcard.Db.Cards.{get_card_id_for_name_lnurlp}
use boltcard.Db.Receipts.{insert_receipt, insert_receipt_sql}
use boltcard.Db.Hoare.{
  Ensures, Ensures-pure, Ensures-raise, Ensures-if, Ensures-bind, Ensures-read, Ensures-exec,
  Reads-open_db,
}
use boltcard.Db.Hoare.Post.{
  Post, Post-any, Post-Ensures, Post-weaken, Post-pure, Post-or_raise, Post-bind, Post-ensure,
}
use boltcard.Lnd.{Node, Connection, meanwhile}
use boltcard.Lnd.Pay.{connect}
use boltcard.Lnd.Invoices.{add_invoice, invoice_of}
use boltcard.Lnurlw.Tap.{or_raise}
use boltcard.Lnurlp.{
  min_sendable_msat, max_sendable_msat, metadata_json, Deposit, deposit, callback,
}

-- The newest receipt.
pub record Receipt (card_id amount : ℕ) (d : Deposit) (t : Tables) : Type 0 where
  pub row : ReceiptRow
  pub before : List ReceiptRow
  pub newest : t.receipts ≡ row ∷ before
  pub of_card : row.card_id ≡ card_id
  pub of_amount : row.amount_msats ≡ amount
  pub of_hash : row.r_hash_hex ≡ pad 64 (encode_to_string d.r_hash)
  pub unsettled : row.receipt_status ≡ ""

-- The answer of the node to a request for an invoice of the amount and of the metadata.
pub record Made (node : Node) (amount : ℕ) (metadata : Text) (pr r_hash : Text) : Type 0 where
  pub connection : Connection
  pub expiry : ℤ
  pub is_made :
      (node.add_invoice connection (invoice_of node (pos (amount / 1000)) metadata expiry)).1
      ≡ some (pr, r_hash)

-- A whole number of satoshis within the range.
pub record Sendable (amount : ℕ) : Type 0 where
  pub low : min_sendable_msat ≤ amount
  pub high : amount ≤ max_sendable_msat
  pub whole : amount % 1000 ≡ 0

pub record Deposited (node : Node) (name : Text) (r : Request) (d : Deposit) (t : Tables)
    : Type 0 where
  pub amount : ℕ
  pub asked : atoi (get_param "amount" r) ≡ some (pos amount)
  pub sendable : Sendable amount
  pub made : Made node amount (metadata_json name r.host) d.pr d.r_hash
  pub card_id : ℕ
  pub receipt : Receipt card_id amount d t

module _ {db : Db} where
  Post-add_invoice :
      (node : Node) (amount : ℕ) (metadata : Text)
      → Post db
          (add_invoice node (pos (amount / 1000)) metadata)
          (λ answer _. Made node amount metadata answer.0 answer.1)
  unfolding add_invoice
  Post-add_invoice node amount metadata =
      Post-bind (get_setting "LN_PORT") _ (Post-any _) λ port _ _.
        Post-bind (or_raise (atoi port) failed) _ (Post-any _) λ ln_port _ _.
          Post-bind (get_setting "LN_INVOICE_EXPIRY_SEC") _ (Post-any _) λ text _ _.
            Post-bind (or_raise (atoi text) failed) _ (Post-any _) λ expiry _ _.
              Post-bind (connect node ln_port) _ (Post-any _) λ connection _ _.
                Post-bind
                  (meanwhile
                    (node.add_invoice connection
                      (invoice_of node (pos (amount / 1000)) metadata expiry)).0)
                  _ (Post-any _)
                  λ _ _ _.
                    Post-weaken _
                      (λ answer db' e. record {
                        connection = connection;
                        expiry = expiry;
                        is_made = e;
                      })
                      (Post-or_raise _ failed)

insert-Receipt :
    (now : ℕ) (t : Tables) (card_id amount : ℕ) (d : Deposit)
    → Ensures now t
        (insert_receipt card_id d.pr (encode_to_string d.r_hash) amount)
        (λ _ t'. Receipt card_id amount d t')
unfolding insert_receipt insert_receipt_sql checked
insert-Receipt now t card_id amount d = Ensures-read _ _ Reads-open_db λ _ _.
    Ensures-bind _ _ (Ensures-exec _) λ n t' e.
      Ensures-if (n == 1) _ _
        (λ one. Ensures-pure tt (record {
          row = record {
            card_receipt_id = t.next_receipt_id;
            card_id = card_id;
            ln_invoice = d.pr;
            r_hash_hex = pad 64 (encode_to_string d.r_hash);
            amount_msats = amount;
            receipt_status = "";
            receipt_status_time = now;
          };
          before = t.receipts;
          newest = ground (arith, e);
          of_card = refl;
          of_amount = refl;
          of_hash = refl;
          unsettled = refl;
        }))
        λ _. Ensures-raise _

-- The checks of an amount.
amount_in_range :
    (n : ℤ)
    → not (ltb_ℤ n (pos min_sendable_msat) || ltb_ℤ (pos max_sendable_msat) n) ≡ true
    → (pos_part n % 1000 == 0) ≡ true
    → (n ≡ pos (pos_part n)) × Sendable (pos_part n)
amount_in_range (pos n) e w =
    (refl, record { low = ground (arith, e); high = ground (arith, e); whole = ground (arith, w) })
amount_in_range (negsuc n) e w = absurd (ground (arith, e))

-- `add_invoice` of an amount that is not negative.
Post-add_amount :
    (node : Node) (n : ℤ) (metadata : Text) (db : Db)
    → n ≡ pos (pos_part n)
    → Post db
        (add_invoice node (quot_ℤ n 1000) metadata)
        (λ answer _. Made node (pos_part n) metadata answer.0 answer.1)
Post-add_amount node n metadata db is =
    subst
      (λ k.
        Post db (add_invoice node (quot_ℤ k 1000) metadata)
          (λ answer _. Made node (pos_part n) metadata answer.0 answer.1))
      (sym is) (Post-add_invoice node (pos_part n) metadata)

deposit-Deposited :
    (node : Node) (name : Text) (r : Request) (db : Db)
    → Post db (deposit node name r) (λ d db'. Deposited node name r d db'.tables)
unfolding deposit
deposit-Deposited node name r db =
    Post-bind (get_card_id_for_name_lnurlp name) _ (Post-any _) λ card_id _ _.
      Post-bind (get_setting "HOST_DOMAIN") _ (Post-any _) λ domain _ _.
        Post-bind _ _ (Post-ensure (text_eq r.host domain) (message "wrong host domain"))
          λ _ _ same.
            Post-bind
              (or_raise (atoi (get_param "amount" r)) (message "amount is not a valid integer")) _
              (Post-or_raise _ _)
              λ n _ asked.
                Post-bind _ _
                  (Post-ensure
                    (not (ltb_ℤ n (pos min_sendable_msat) || ltb_ℤ (pos max_sendable_msat) n))
                    (message "amount is out of range"))
                  λ _ _ range.
                    Post-bind _ _
                      (Post-ensure (pos_part n % 1000 == 0)
                        (message "amount is not a whole number of sats"))
                      λ _ db1 whole.
                        let (is, sendable) = amount_in_range n range whole in
                        let host : domain ≡ r.host = sym ((text_eq_iff r.host domain).0 same) in
                        Post-bind (add_invoice node (quot_ℤ n 1000) (metadata_json name domain)) _
                          (Post-add_amount node n (metadata_json name domain) db1 is)
                          λ (pr, r_hash) db2 made.
                            let d : Deposit = record { pr = pr; r_hash = r_hash } in
                            Post-bind
                              (insert_receipt card_id pr (encode_to_string r_hash) (pos_part n)) _
                              (Post-Ensures _
                                (insert-Receipt db2.now db2.tables card_id (pos_part n) d))
                              λ _ db3 (_, receipt). Post-pure d (record {
                                amount = pos_part n;
                                asked = asked ∙ ap some is;
                                sendable = sendable;
                                made =
                                    subst
                                      (λ h. Made node (pos_part n) (metadata_json name h) pr r_hash)
                                      host made;
                                card_id = card_id;
                                receipt = receipt;
                              })

deposit-if :
    (node : Node) (name : Text) (r : Request) (b : Bool) (db : Db)
    → Post db
        (if b then (deposit node name r >>= λ d. pure (some d)) else pure none)
        (λ o db'. (d : Deposit) → o ≡ some d → Deposited node name r d db'.tables)
deposit-if node name r true db =
    Post-bind (deposit node name r) _ (deposit-Deposited node name r db) λ d db' q.
      Post-pure (some d)
        λ d' e. subst (λ x. Deposited node name r x db'.tables) (some-injective d d' e) q
deposit-if node name r false db = Post-pure none λ d e. absurd (cc)

-- Whatever the node answers, whatever other requests do in the meantime and whatever faults the
-- database meets: a deposit that is answered with a payment request is of an amount that the
-- request asked for, which is a whole number of satoshis between the bounds. The node has made the
-- invoice for that many satoshis and for the hash of the metadata of the address. The newest
-- receipt is of that amount and of the hash of that invoice, and is not settled.
pub callback-Deposited :
    (node : Node) (name : Text) (r : Request) (d : Deposit) (db : Db)
    → (callback node name r db).0 ≡ ok (some d)
    → Deposited node name r d (callback node name r db).1.tables
unfolding callback text_eq
callback-Deposited node name r d db = λ e.
    (Post-bind (get_setting "FUNCTION_LNURLP") _ (Post-any _)
        λ value db1 _. deposit-if node name r (text_eq value (codes "ENABLE")) db1).at
      (some d) e d refl
