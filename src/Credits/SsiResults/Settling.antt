-- ===== src/Credits/SsiResults/Settling.antt =====
-- The answer to a message with transaction results, and the items that are settled.
use entity_developer_dashboa.Prelude.{
  suc, if◌then◌else◌, String, Bool, true, false, some, List, [], ◌∷◌, ◌≡◌, refl, ap, arith, All,
  length, truthy, ◌⊎◌, inl, inr, none, Option, ◌≢◌,
}
use mathlib.Core.Path.{subst}
use entity_developer_dashboa.Exec.{
  error, Result, ok, err, from_ok, then_ok, ◌>>=?◌, Failure, catch, pure, ◌>>=◌,
}
use entity_developer_dashboa.Json.{Value, text}
use entity_developer_dashboa.World.{World, Services}
use entity_developer_dashboa.Credits.SsiResults.{
  Item, missing, item, ResultItem, parse_items, is_invalid_item, parse_result, RawResult,
  TransactionResult, Channel, Delivery, told, given_back, acknowledged, acknowledged_by, ack,
  requeue, consume, settle_items, settle_for, process_result, answer, ResultStatus,
  result_succeeded, result_failed, result_unknown, invalid_status,
}

unless_ok :
    {A : Type 0} (b : Bool) (e : Failure) (m : Result A) {a : A}
    → (if b then err e else m) ≡ ok a
    → (b ≡ false) × (m ≡ ok a)
unless_ok true e m h = cc
unless_ok false e m h = (refl, h)

-- Each item names a job and a reservation, and there are as many as in the message.
abbrev pub IsParsed : List Item → List ResultItem → Type 0
IsParsed items rs =
    (length rs ≡ length items)
    × All (λ r. (truthy r.transaction_job_id ≡ true) × (truthy r.reservation_id ≡ true)) rs

-- The items of a parsed result are as many as those of the message, and each names a job and a
-- reservation.
pub parse_items_lem :
    (items : List Item) (rs : List ResultItem) → parse_items items ≡ ok rs → IsParsed items rs
unfolding parse_items
parse_items_lem [] rs h = subst (IsParsed []) (ap (from_ok []) h) (refl, tt)
parse_items_lem (missing ∷ items) rs h = cc
parse_items_lem (item service (text j) (text r) ∷ items) rs h =
    let first : ResultItem = record { transaction_job_id = j; reservation_id = r } in
    let (valid, rest) =
      unless_ok (is_invalid_item service j r) (error "Invalid SSI transaction result item")
        (parse_items items >>=? λ more. ok (first ∷ more)) h in
    let (more, parsed, e) = then_ok (parse_items items) (λ more. ok (first ∷ more)) rest in
    let (same, named) = parse_items_lem items more parsed in
    subst (IsParsed (item service (text j) (text r) ∷ items)) (ap (from_ok []) e)
      (ap suc same, ((ground arith, ground arith), named))
parse_items_lem (item service (text j) _ ∷ items) rs h = cc
parse_items_lem (item service _ _ ∷ items) rs h = cc

-- No parsed result: no JSON, or a message that fails the tests.
abbrev pub Unreadable : Option RawResult → Type 0
Unreadable none = Unit {0}
Unreadable (some raw) = (e : Failure) × (parse_result raw ≡ err e)

abbrev pub IsRead : Option RawResult → TransactionResult → Type 0
IsRead none t = ⊥
IsRead (some raw) t = parse_result raw ≡ ok t

-- The calls of the channel after a settlement: an ack if it succeeded and a nack if it failed or
-- the ack throws, and the message leaves with the exception of the last of them, if it has one.
abbrev pub IsAnswered : Channel → Result (Unit {0}) → Delivery → Type 0
IsAnswered channel (err e) d = (d.answers ≡ requeue ∷ []) × (d.thrown ≡ channel.thrown_by requeue)
IsAnswered channel (ok u) d =
    ((channel.thrown_by ack ≡ none) × (d.answers ≡ ack ∷ []) × (d.thrown ≡ none))
    ⊎ ((e : Failure) × (channel.thrown_by ack ≡ some e)
        × (d.answers ≡ ack ∷ requeue ∷ [])
        × (d.thrown ≡ channel.thrown_by requeue))

acknowledged-IsAnswered :
    (channel : Channel) (u : Unit {0}) → IsAnswered channel (ok u) (acknowledged channel)
acknowledged-IsAnswered channel u = go (channel.thrown_by ack) refl
  where
    go :
        (o : Option Failure)
        → channel.thrown_by ack ≡ o
        → IsAnswered channel (ok u) (acknowledged_by channel o)
    go none h = inl (h, refl, refl)
    go (some e) h = inr (e, h, refl, refl)

is_unknown : (s : ResultStatus) → (s ≡ result_unknown) ⊎ (s ≢ result_unknown)
is_unknown result_unknown = inl refl
is_unknown result_succeeded = inr (λ h. cc)
is_unknown result_failed = inr (λ h. cc)
is_unknown invalid_status = inr (λ h. cc)

module _ (code_text : Value → String) (sv : Services) where
  -- The delivery of a message whose result was read, and the state it leaves.
  abbrev pub Settled : Channel → TransactionResult → World → Result Delivery × World → Type 0
  Settled channel t w out =
      (d : Delivery) × (out ≡ (ok d, (settle_items code_text sv t w).1))
      × IsAnswered channel (settle_items code_text sv t w).0 d

  process_result_lem :
      (channel : Channel) (t : TransactionResult) (w : World)
      → Settled channel t w (process_result code_text sv channel t w)
  unfolding process_result ◌>>=◌
  process_result_lem channel t w = go (settle_items code_text sv t w)
    where
      finish : Result (Unit {0}) × World → Result Delivery × World
      finish out =
          catch ((λ v. out) >>= λ u. pure (acknowledged channel))
            (λ e. pure (given_back channel [])) w

      go :
          (out : Result (Unit {0}) × World)
          → (d : Delivery) × (finish out ≡ (ok d, out.1)) × IsAnswered channel out.0 d
      go (ok u, after) = (acknowledged channel, refl, acknowledged-IsAnswered channel u)
      go (err e, after) = (given_back channel [], refl, (refl, refl))

  unknown-settle_items :
      (t : TransactionResult) (w : World)
      → t.status ≡ result_unknown
      → settle_items code_text sv t w ≡ (ok tt, w)
  unfolding settle_items settle_for ◌>>=◌
  unknown-settle_items t w h = rw h refl

  -- Every message is told of to the channel. One that cannot be read, for want of JSON too, is
  -- acknowledged once and changes nothing. For one that was read the items are settled, and after
  -- that it is acknowledged if they all were and given back if one failed or the ack throws. A result of
  -- unknown outcome settles nothing and changes nothing.
  pub consume_lem :
      (channel : Channel) (m : Option RawResult) (w : World)
      → (Unreadable m × (consume code_text sv channel m w ≡ (ok (told channel ack), w)))
        ⊎ ((t : TransactionResult) × IsRead m t
            × Settled channel t w (consume code_text sv channel m w)
            × (t.status ≢ result_unknown ⊎ (settle_items code_text sv t w ≡ (ok tt, w))))
  unfolding consume answer pure
  consume_lem channel none w = inl (tt, refl)
  consume_lem channel (some raw) w = go (parse_result raw) refl
    where
      go :
          (p : Result TransactionResult)
          → parse_result raw ≡ p
          → (((e : Failure) × (parse_result raw ≡ err e))
              × (answer code_text sv channel p w ≡ (ok (told channel ack), w)))
            ⊎ ((t : TransactionResult) × (parse_result raw ≡ ok t)
                × Settled channel t w (answer code_text sv channel p w)
                × (t.status ≢ result_unknown ⊎ (settle_items code_text sv t w ≡ (ok tt, w))))
      go (err e) h = inl ((e, h), refl)
      go (ok t) h = inr (
        t,
        h,
        process_result_lem channel t w,
        elim (is_unknown t.status) [ inl u ↦ inr (unknown-settle_items t w u) | inr k ↦ inl k ],
      )
