-- ===== src/Tests/Ledger.antt =====
-- The ledger over collections in memory: runs, and the theorems at concrete stores.
use ai_go.Common.{Bool, true, false, List, ◌≡◌, refl, ◌&&◌, none, some, [], ◌∷◌, arith}
use ai_go.Common.Int.{pos}
use ai_go.Common.Text.{codes, eq_text, eq_text_sound, eq_text_refl}
use ai_go.Common.Clock.{Time}
use ai_go.Common.Result.{ok, err}
use ai_go.Ledger.Model.{
  Repository, ReserveRequest, Reservation, diamonds, reversed, reservation_command_conflict,
  confiscated, generation_failed,
}
use ai_go.Ledger.Usecase.{
  reserve_in_tx, reserve_found, reserve_new, charge, consume_quota, debit_price, write_reservation,
  quota_disabled, invalid_reserve_request, new_reservation, reservation_id, reserve_ledger_key,
  reverse_ledger_key, reverse_in_tx, reverse_found, reverse_status, reverse_reserved,
  refund_and_write, refund, write_reversal, confiscate_in_tx, confiscate_found,
  is_allowed_reversal_reason,
}
use ai_go.Ledger.Documents.{AccountDocument, QuotaKey, new_reservation_document, to_biz_reservation}
use ai_go.Ledger.Contract.{Laws, View}
use ai_go.Ledger.Storage.{
  Database, Tables, ledger_repository, find_reservation, read_document, try_debit_diamonds,
  credit_diamonds, create_reservation, transition_reservation, append_ledger_entry, append_reply,
}
use ai_go.Ledger.Storage.Effects.{view}
use ai_go.Ledger.Storage.Refinement.{ledger_repository-Laws}
use ai_go.Ledger.Model.{reserved}
use ai_go.Ledger.Documents.{is_open_gate}
use ai_go.Ledger.Storage.Answers.{Answers}
use ai_go.Ledger.Storage.Progress.{reserve_in_tx-Answers}
use ai_go.Ledger.Storage.Reversible.{CanRefund, account_stands, reverse_in_tx-ok}
use ai_go.Ledger.SameCommand.{SameCommand}
use ai_go.Ledger.Reserve.{Made, reserve_in_tx-Made, reserve_in_tx_again}
use ai_go.Ledger.Reverse.{Reverses, reverse_in_tx-Reverses}
use ai_go.Ledger.Confiscate.{Confiscates, confiscate_in_tx-Confiscates}
use ai_go.Ledger.RoundTrip.{Undone, reserve_in_tx-reverse_in_tx}
use ai_go.Ledger.Transactions.{wired, Command, to_reserve, to_reverse, to_confiscate, perform_all}
use ai_go.Ledger.Invariant.{IsHistory}
use ai_go.Ledger.History.{perform_all-IsHistory}
use ai_go.Tests.Memory.{memory, memory-Responds, transaction}

abbrev same_key : QuotaKey → QuotaKey → Bool
same_key a b =
    eq_text a.user_id b.user_id
    && eq_text a.quota_kind b.quota_kind
    && eq_text a.local_date b.local_date

same_key_sound : (a b : QuotaKey) → same_key a b ≡ true → a ≡ b
same_key_sound a b h =
    let user : a.user_id ≡ b.user_id = eq_text_sound a.user_id b.user_id (ground arith) in
    let kind : a.quota_kind ≡ b.quota_kind =
      eq_text_sound a.quota_kind b.quota_kind (ground arith) in
    let date : a.local_date ≡ b.local_date =
      eq_text_sound a.local_date b.local_date (ground arith) in
    λ i. record { user_id = user i; quota_kind = kind i; local_date = date i }

same_key_refl : (a : QuotaKey) → same_key a a ≡ true
same_key_refl a =
    rw (eq_text_refl a.user_id, eq_text_refl a.quota_kind, eq_text_refl a.local_date) refl

abbrev in_memory : Database
in_memory = record {
  accounts = memory eq_text eq_text_sound eq_text_refl;
  daily_quotas = memory same_key same_key_sound same_key_refl;
  reservations = memory eq_text eq_text_sound eq_text_refl;
  ledger_entries = memory eq_text eq_text_sound eq_text_refl;
}

abbrev repository : Repository (Tables in_memory)
repository = ledger_repository in_memory

-- Ann has 30 diamonds; her image quota of the day is used 9 of 10 times.
abbrev account : AccountDocument
account = record { diamond_balance = pos 30; created_at = 1; updated_at = 1 }

abbrev first : Tables in_memory
first = record {
  accounts = λ k. elim (eq_text k (codes "ann")) [ true ↦ some account | _ ↦ none ];
  daily_quotas = λ k. none;
  reservations = λ k. none;
  ledger_entries = λ k. none;
}

abbrev request : ReserveRequest
request = record {
  creation_id = codes "c1";
  user_id = codes "ann";
  price_diamonds = pos 20;
  quota = record {
    kind = codes "image";
    local_date = codes "2026-01-01";
    limit = pos 0;
    units = pos 0;
  };
  business_at = 7;
}

abbrev made : Reservation
made = new_reservation request (diamonds, pos 20)

abbrev second : Tables in_memory
second = (reserve_in_tx (some repository) request first).1

reserves : (reserve_in_tx (some repository) request first).0 ≡ ok made
unfolding reserve_in_tx reserve_found reserve_new charge consume_quota debit_price write_reservation
    quota_disabled invalid_reserve_request find_reservation read_document try_debit_diamonds
    create_reservation append_ledger_entry append_reply eq_text reservation_id reserve_ledger_key
    new_reservation_document
reserves = refl

ledger_repository-Laws_example : Laws (view in_memory) (ledger_repository in_memory)
ledger_repository-Laws_example = ledger_repository-Laws in_memory

reserve_in_tx-Made_example :
    (invalid_reserve_request request ≡ false) × Made (view in_memory) request first second made
reserve_in_tx-Made_example =
    reserve_in_tx-Made (view in_memory) repository (ledger_repository-Laws in_memory) request first
      second made refl (λ i. (reserves i, second))

abbrev reversed_ : Reservation
reversed_ = record made { status = reversed }

abbrev third : Tables in_memory
third = (reverse_in_tx (some repository) (codes "c1") generation_failed 9 second).1

abbrev confiscated_ : Reservation
confiscated_ = record made { status = confiscated }

abbrev taken : Tables in_memory
taken = (confiscate_in_tx (some repository) (codes "c1") (codes "abuse") 9 second).1

stored : View.reservation (view in_memory) second (codes "c1") ≡ some made
unfolding reserve_in_tx reserve_found reserve_new charge consume_quota debit_price write_reservation
    quota_disabled invalid_reserve_request find_reservation read_document try_debit_diamonds
    create_reservation append_ledger_entry append_reply eq_text reservation_id reserve_ledger_key
    new_reservation_document to_biz_reservation
stored = refl

found : repository.find_reservation (codes "c1") second ≡ (ok (some made), second)
unfolding reserve_in_tx reserve_found reserve_new charge consume_quota debit_price write_reservation
    quota_disabled invalid_reserve_request find_reservation read_document try_debit_diamonds
    create_reservation append_ledger_entry append_reply eq_text reservation_id reserve_ledger_key
    new_reservation_document to_biz_reservation
found = refl

reverses :
    (reverse_in_tx (some repository) (codes "c1") generation_failed 9 second).0 ≡ ok reversed_
unfolding reserve_in_tx reserve_found reserve_new charge consume_quota debit_price write_reservation
    quota_disabled invalid_reserve_request find_reservation read_document try_debit_diamonds
    create_reservation append_ledger_entry append_reply eq_text reservation_id reserve_ledger_key
    new_reservation_document to_biz_reservation reverse_in_tx is_allowed_reversal_reason
    reverse_found reverse_status reverse_reserved transition_reservation refund_and_write refund
    write_reversal credit_diamonds reverse_ledger_key
reverses = refl

confiscates :
    (confiscate_in_tx (some repository) (codes "c1") (codes "abuse") 9 second).0 ≡ ok confiscated_
unfolding reserve_in_tx reserve_found reserve_new charge consume_quota debit_price write_reservation
    quota_disabled invalid_reserve_request find_reservation read_document try_debit_diamonds
    create_reservation append_ledger_entry append_reply eq_text reservation_id reserve_ledger_key
    new_reservation_document to_biz_reservation confiscate_in_tx confiscate_found
    transition_reservation
confiscates = refl

-- The same request again, and a request at another price.
reserve_in_tx_again_example :
    (SameCommand made request → reserve_in_tx (some repository) request second ≡ (ok made, second))
    × ((SameCommand made request → ⊥)
        → reserve_in_tx (some repository) request second
          ≡ (err reservation_command_conflict, second))
reserve_in_tx_again_example =
    reserve_in_tx_again (view in_memory) repository (ledger_repository-Laws in_memory) request
      second made stored (λ p. absurd (cc)) (omega arith) (some made) found

reverse_in_tx-Reverses_example :
    (n : Reservation) × (View.reservation (view in_memory) second (codes "c1") ≡ some n)
    × (is_allowed_reversal_reason generation_failed ≡ true)
    × Reverses (view in_memory) (codes "c1") generation_failed 9 n second reversed_ third
reverse_in_tx-Reverses_example =
    reverse_in_tx-Reverses (view in_memory) repository (ledger_repository-Laws in_memory)
      (codes "c1") generation_failed 9 second third reversed_ (λ i. (reverses i, third))

confiscate_in_tx-Confiscates_example :
    Confiscates (view in_memory) (codes "c1") 9 confiscated_ second taken
confiscate_in_tx-Confiscates_example =
    confiscate_in_tx-Confiscates (view in_memory) repository (ledger_repository-Laws in_memory)
      (codes "c1") (codes "abuse") 9 second taken confiscated_ (λ i. (confiscates i, taken))

reserve_in_tx-reverse_in_tx_example :
    Undone (view in_memory) request generation_failed 9 made first second third
reserve_in_tx-reverse_in_tx_example =
    reserve_in_tx-reverse_in_tx (view in_memory) repository (ledger_repository-Laws in_memory)
      request generation_failed 9 first second third made reversed_ refl (λ i. (reserves i, second))
      (λ i. (reverses i, third))

-- Ann cannot pay for a second request, and Bob has no account.
abbrev commands : List (Time × Command)
commands =
    (7, to_reserve request)
    ∷ (8, to_reserve (record request { creation_id = codes "c2" }))
    ∷ (8, to_reserve (record request { creation_id = codes "c3"; user_id = codes "bob" }))
    ∷ (9, to_reverse (codes "c1") generation_failed)
    ∷ (10, to_confiscate (codes "c1") (codes "abuse"))
    ∷ []

perform_all-IsHistory_example :
    IsHistory (view in_memory) first (perform_all (wired repository transaction) commands first)
perform_all-IsHistory_example =
    perform_all-IsHistory (view in_memory) repository (ledger_repository-Laws in_memory) transaction
      commands first

valid : invalid_reserve_request request ≡ false
unfolding invalid_reserve_request quota_disabled
valid = refl

reserve_in_tx-Answers_example :
    Answers request none
      (first.accounts (codes "ann"))
      (reserve_in_tx (some repository) request first).0
reserve_in_tx-Answers_example =
    reserve_in_tx-Answers in_memory (memory-Responds eq_text eq_text_sound eq_text_refl)
      (memory-Responds same_key same_key_sound same_key_refl)
      (memory-Responds eq_text eq_text_sound eq_text_refl)
      (memory-Responds eq_text eq_text_sound eq_text_refl) request first valid refl refl

-- A store that holds the reservation.
abbrev holding : Tables in_memory
holding = record first {
  reservations =
      λ k. elim (eq_text k (codes "c1")) [ true ↦ some (new_reservation_document made) | _ ↦ none ];
}

allowed : is_allowed_reversal_reason generation_failed ≡ true
unfolding is_allowed_reversal_reason
allowed = refl

held : holding.reservations (codes "c1") ≡ some (new_reservation_document made)
unfolding eq_text
held = refl

is_reserved_ : (new_reservation_document made).status ≡ reserved
unfolding new_reservation_document
is_reserved_ = refl

is_open_ : is_open_gate (new_reservation_document made).publication_state ≡ true
unfolding new_reservation_document
is_open_ = refl

refundable :
    CanRefund in_memory
      (memory-Responds eq_text eq_text_sound eq_text_refl)
      (memory-Responds same_key same_key_sound same_key_refl)
      (memory-Responds eq_text eq_text_sound eq_text_refl)
      (memory-Responds eq_text eq_text_sound eq_text_refl)
      (to_biz_reservation (new_reservation_document made))
      holding
unfolding new_reservation_document to_biz_reservation eq_text
refundable = account_stands account refl (omega arith) refl

reverse_in_tx-ok_example :
    (reverse_in_tx (some repository) (codes "c1") generation_failed 9 holding).0
    ≡ ok (record (to_biz_reservation (new_reservation_document made)) { status = reversed })
reverse_in_tx-ok_example =
    reverse_in_tx-ok in_memory (memory-Responds eq_text eq_text_sound eq_text_refl)
      (memory-Responds same_key same_key_sound same_key_refl)
      (memory-Responds eq_text eq_text_sound eq_text_refl)
      (memory-Responds eq_text eq_text_sound eq_text_refl) (codes "c1") generation_failed 9 holding
      (new_reservation_document made) (λ p. absurd (cc)) allowed (omega arith) held is_reserved_
      is_open_ refundable refl
