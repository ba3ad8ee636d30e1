-- ===== src/Credits/Lifecycle/Order.antt =====
-- The order of the calls of one application.
use entity_developer_dashboa.Prelude.{
  ℕ, suc, Bool, true, false, ◌&&◌, Option, none, some, List, [], ◌∷◌, length, All, ◌≡◌, refl, sym,
  ap, ◌∙◌, ◌⊎◌, inl, inr, arith, Bool-cases, is_number, if◌then◌else◌, ◌==◌,
}
use entity_developer_dashboa.Credits.Lifecycle.{
  Phase, waiting, running, settled, cleaned, Call, Chain, is_done, call_at, is_ready, arrive, Move,
  begin, settle, clean, phase_after, is_clean, is_settled, can_clean, move_call, entry_after, move,
  Event, arrives, moves, step, run,
}

abbrev pub AllDone : List Call → Type 0
AllDone cs = All (λ c. is_done c.phase ≡ true) cs

abbrev pub has_begun : Phase → Bool
has_begun waiting = false
has_begun _ = true

-- A call waits for the one before it, or for none if those before it are all done; and it has begun
-- only after those before it are done.
abbrev pub Waits : Option ℕ → List Call → Type 0
Waits none older = AllDone older
Waits (some p) older = suc p ≡ length older

abbrev pub IsOrdered : List Call → Type 0
IsOrdered [] = Unit
IsOrdered (c ∷ cs) = Waits c.previous cs × (has_begun c.phase ≡ true → AllDone cs) × IsOrdered cs

-- The table has the newest call until that has been cleaned up.
abbrev pub is_cleaned : Phase → Bool
is_cleaned cleaned = true
is_cleaned _ = false

abbrev pub newest : List Call → Option ℕ
newest [] = none
newest (c ∷ cs) = if is_cleaned c.phase then none else some (length cs)

pub record IsInOrder (c : Chain) : Type 0 where
  pub ordered : IsOrdered c.calls
  pub entry_lem : c.entry ≡ newest c.calls

length-move_call : (m : Move) (n : ℕ) (cs : List Call) → length (move_call m n cs) ≡ length cs
length-move_call m n [] = refl
length-move_call m n (c ∷ cs) = elim (Bool-cases (n == length cs)) [
  | inl e ↦ rw e refl
  | inr e ↦ rw e (ap suc (length-move_call m n cs))
]

done_stays :
    (m : Move) (r : Bool) (p : Phase) → is_done p ≡ true → is_done (phase_after m r p) ≡ true
done_stays m r waiting h = cc
done_stays m r running h = cc
done_stays begin true settled h = refl
done_stays begin false settled h = refl
done_stays settle r settled h = refl
done_stays clean r settled h = refl
done_stays begin true cleaned h = refl
done_stays begin false cleaned h = refl
done_stays settle r cleaned h = refl
done_stays clean r cleaned h = refl

begun_before :
    (m : Move) (r : Bool) (p : Phase)
    → has_begun (phase_after m r p) ≡ true
    → (has_begun p ≡ true) ⊎ (r ≡ true)
begun_before begin true waiting h = inr refl
begun_before begin false waiting h = cc
begun_before settle r waiting h = cc
begun_before clean r waiting h = cc
begun_before m r running h = inl refl
begun_before m r settled h = inl refl
begun_before m r cleaned h = inl refl

done_begun : (p : Phase) → is_done p ≡ true → has_begun p ≡ true
done_begun waiting h = cc
done_begun running h = refl
done_begun settled h = refl
done_begun cleaned h = refl

AllDone-move_call : (m : Move) (n : ℕ) (cs : List Call) → AllDone cs → AllDone (move_call m n cs)
AllDone-move_call m n [] h = tt
AllDone-move_call m n (c ∷ cs) h = elim (Bool-cases (n == length cs)) [
  | inl e ↦ rw e (done_stays m (is_ready c.previous cs) c.phase h.0, h.1)
  | inr e ↦ rw e (h.0, AllDone-move_call m n cs h.1)
]

pub call_at-newest :
    (q : ℕ) (c : Call) (cs : List Call) → q ≡ length cs → call_at q (c ∷ cs) ≡ some c
call_at-newest q c cs e = let b : (q == length cs) ≡ true = ground (arith, e) in rw b refl

-- A call is ready only after those before it are done.
pub AllDone-is_ready :
    (o : Option ℕ) (cs : List Call) → Waits o cs → IsOrdered cs → is_ready o cs ≡ true → AllDone cs
AllDone-is_ready none cs w h r = w
AllDone-is_ready (some q) [] w h r = tt
AllDone-is_ready (some q) (d ∷ ds) w h r =
    let e = call_at-newest q d ds (omega (arith, w)) in
    let finished : is_done d.phase ≡ true = rw e at r in
    (finished, h.1 (done_begun d.phase finished))

Waits-move_call :
    (m : Move) (n : ℕ) (o : Option ℕ) (cs : List Call) → Waits o cs → Waits o (move_call m n cs)
Waits-move_call m n none cs w = AllDone-move_call m n cs w
Waits-move_call m n (some q) cs w = w ∙ sym (length-move_call m n cs)

IsOrdered-move_call :
    (m : Move) (n : ℕ) (cs : List Call) → IsOrdered cs → IsOrdered (move_call m n cs)
IsOrdered-move_call m n [] h = tt
IsOrdered-move_call m n (c ∷ cs) h = elim (Bool-cases (n == length cs)) [
  | inl e ↦ rw e (
    h.0,
    (λ b. elim (begun_before m (is_ready c.previous cs) c.phase b) [
      | inl begun ↦ h.1 begun
      | inr ready ↦ AllDone-is_ready c.previous cs h.0 h.2 ready
    ]),
    h.2,
  )
  | inr e ↦ rw e (
    Waits-move_call m n c.previous cs h.0,
    (λ b. AllDone-move_call m n cs (h.1 b)),
    IsOrdered-move_call m n cs h.2,
  )
]

-- What the cleaning of the newest call does to the table, and no other move.
entry_newest :
    (m : Move) (r : Bool) (p : Phase) (k : ℕ)
    → (if is_clean m && is_settled p && is_number (if is_cleaned p then none else some k) k
        then none
        else (if is_cleaned p then none else some k))
      ≡ (if is_cleaned (phase_after m r p) then none else some k)
entry_newest begin true waiting k = refl
entry_newest begin false waiting k = refl
entry_newest settle r waiting k = refl
entry_newest clean r waiting k = refl
entry_newest begin true running k = refl
entry_newest begin false running k = refl
entry_newest settle r running k = refl
entry_newest clean r running k = refl
entry_newest begin true settled k = refl
entry_newest begin false settled k = refl
entry_newest settle r settled k = refl
entry_newest clean r settled k = ground arith
entry_newest begin true cleaned k = refl
entry_newest begin false cleaned k = refl
entry_newest settle r cleaned k = refl
entry_newest clean r cleaned k = refl

entry_kept :
    (b : Bool) (p : Phase) (n k : ℕ)
    → (n == k) ≡ false
    → (if b && is_number (if is_cleaned p then none else some k) n
        then none
        else (if is_cleaned p then none else some k))
      ≡ (if is_cleaned p then none else some k)
entry_kept b waiting n k h = ground arith
entry_kept b running n k h = ground arith
entry_kept b settled n k h = ground arith
entry_kept b cleaned n k h = ground arith

newest-move_call :
    (m : Move) (n : ℕ) (cs : List Call)
    → entry_after m n (record { calls = cs; entry = newest cs }) ≡ newest (move_call m n cs)
newest-move_call m n [] = ground arith
newest-move_call m n (c ∷ cs) = elim (Bool-cases (n == length cs)) [
  | inl e ↦
      let k : n ≡ length cs = ground (arith, e) in
      rw (e, k) (entry_newest m (is_ready c.previous cs) c.phase (length cs))
  | inr e ↦
      rw (e, length-move_call m n cs)
        (entry_kept (is_clean m && can_clean (call_at n cs)) c.phase n (length cs) e)
]

move-IsInOrder : (m : Move) (n : ℕ) (c : Chain) → IsInOrder c → IsInOrder (move m n c)
unfolding move
move-IsInOrder m n c h = record {
  ordered = IsOrdered-move_call m n c.calls h.ordered;
  entry_lem =
      ap (λ o. entry_after m n (record { calls = c.calls; entry = o })) h.entry_lem
      ∙ newest-move_call m n c.calls;
}

arrive-IsInOrder : (c : Chain) → IsInOrder c → IsInOrder (arrive c)
unfolding arrive
arrive-IsInOrder c h = record {
  ordered = (rw h.entry_lem (newest_waits c.calls h.ordered), (λ b. cc), h.ordered);
  entry_lem = refl;
}
  where
    newest_waits : (cs : List Call) → IsOrdered cs → Waits (newest cs) cs
    newest_waits [] o = tt
    newest_waits (d ∷ ds) o = go d.phase refl
      where
        go : (p : Phase) → d.phase ≡ p → Waits (newest (d ∷ ds)) (d ∷ ds)
        go waiting e = rw e refl
        go running e = rw e refl
        go settled e = rw e refl
        go cleaned e = rw e (refl, o.1 (rw e refl))

step-IsInOrder : (e : Event) (c : Chain) → IsInOrder c → IsInOrder (step e c)
unfolding step
step-IsInOrder arrives c h = arrive-IsInOrder c h
step-IsInOrder (moves m n) c h = move-IsInOrder m n c h

pub run-IsInOrder : (events : List Event) (c : Chain) → IsInOrder c → IsInOrder (run events c)
run-IsInOrder [] c h = h
run-IsInOrder (e ∷ es) c h = run-IsInOrder es (step e c) (step-IsInOrder e c h)
