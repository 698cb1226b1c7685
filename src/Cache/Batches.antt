-- ===== src/Cache/Batches.antt =====
-- The loop of `deleteByPattern`, core/cache/cache.service.ts, and what holds of it at each key.
use onekey_balance_kit.Base.{
  ℕ, ◌+◌, ◌≤◌, ◌<◌, ◌≡◌, refl, sym, ap, ◌∙◌, Bool, true, false, none, some, List, [], ◌∷◌, ◌++◌,
  Text, leb, ltb, length, length-append, All, All-append, append_assoc, append-nil, arith,
  Option-cases, Bool-cases, inl, inr,
}
use onekey_balance_kit.Cache.{
  Sweep, start_sweep, batch_limit, add_key, exec_batch, sweep_key, sweep_keys,
}

abbrev pub concat {ℓ} : {A : Type ℓ} → List (List A) → List A
concat [] = []
concat (xs ∷ xss) = xs ++ concat xss

concat-snoc {ℓ} :
    {A : Type ℓ} (xss : List (List A)) (xs : List A) → concat (xss ++ xs ∷ []) ≡ concat xss ++ xs
concat-snoc [] xs = append-nil xs
concat-snoc (ys ∷ xss) xs = rw (concat-snoc xss xs) (sym (append_assoc ys (concat xss) xs))

abbrev pub IsBatch : List Text → Type 0
IsBatch b = (0 < length b) × (length b ≤ batch_limit)

-- What the loop has handled so far is what was sent and what waits in the batch.
pub record IsSwept (done : List Text) (w : Sweep) : Type 0 where
  split_up : done ≡ concat w.sent ++ w.batch
  counted : w.counter ≡ length w.batch
  small : w.counter < batch_limit
  total : w.total ≡ length done
  bounded : All IsBatch w.sent

pub start-IsSwept : IsSwept [] start_sweep
start-IsSwept = record {
  split_up = refl;
  counted = refl;
  small = omega arith;
  total = refl;
  bounded = tt;
}

-- Sending a batch that is not empty.
exec_batch-sent :
    (exec_ok : ℕ → Bool) (w v : Sweep)
    → exec_batch exec_ok w ≡ some v
    → (v.sent ≡ w.sent ++ w.batch ∷ []) × (v.batch ≡ []) × (v.counter ≡ 0) × (v.total ≡ w.total)
unfolding exec_batch
exec_batch-sent exec_ok w v e = ground arith

exec_batch-IsSwept :
    (exec_ok : ℕ → Bool) (done : List Text) (w v : Sweep)
    → (done ≡ concat w.sent ++ w.batch) × (w.total ≡ length done) × All IsBatch w.sent
    → IsBatch w.batch
    → exec_batch exec_ok w ≡ some v
    → IsSwept done v
exec_batch-IsSwept exec_ok done w v (split_up, total, bounded) full e =
    let (sent, emptied, reset, same) = exec_batch-sent exec_ok w v e in
    record {
      split_up =
          rw
            (
              sent,
              emptied,
              append-nil (concat (w.sent ++ w.batch ∷ [])),
              concat-snoc w.sent w.batch,
            )
            split_up;
      counted = rw (emptied, reset);
      small = rw reset (omega arith);
      total = rw same total;
      bounded = rw sent (All-append IsBatch w.sent (w.batch ∷ []) bounded (full, tt));
    }

sweep_key-IsSwept :
    (exec_ok : ℕ → Bool) (key : Text) (done : List Text) (w v : Sweep)
    → IsSwept done w
    → sweep_key exec_ok key w ≡ some v
    → IsSwept (done ++ key ∷ []) v
unfolding sweep_key
sweep_key-IsSwept exec_ok key done w v s e = elim (Bool-cases (leb batch_limit (w.counter + 1))) [
  | inl full ↦
      exec_batch-IsSwept exec_ok (done ++ key ∷ []) (add_key key w) v (joined, longer, s.bounded)
        (omega (arith, grown, s.counted, s.small)) (rw full at e)
  | inr room ↦
      let same : add_key key w ≡ v = ground arith in
      rw (← same) record {
        split_up = joined;
        counted = omega (arith, grown, s.counted);
        small = ground arith;
        total = longer;
        bounded = s.bounded;
      }
]
  where
    joined : done ++ key ∷ [] ≡ concat w.sent ++ (w.batch ++ key ∷ [])
    joined = ap (λ xs. xs ++ key ∷ []) s.split_up ∙ append_assoc (concat w.sent) w.batch (key ∷ [])

    grown : length (w.batch ++ key ∷ []) ≡ length w.batch + 1
    grown = length-append w.batch (key ∷ [])

    longer : w.total + 1 ≡ length (done ++ key ∷ [])
    longer = omega (arith, s.total, length-append done (key ∷ []))

-- The end of the loop: whatever happens, what was sent is a beginning of the keys, in batches of 1
-- to 500; if nothing throws, it is all of them, and they are counted.
pub record IsDone (keys : List Text) (r : Sweep × Bool) : Type 0 where
  pub unsent : List Text
  pub began : keys ≡ concat r.0.sent ++ unsent
  pub bounded : All IsBatch r.0.sent
  pub finished : r.1 ≡ true → (unsent ≡ []) × (r.0.total ≡ length keys)

stopped-IsDone :
    (done keys : List Text) (w v : Sweep)
    → IsSwept done w
    → v.sent ≡ w.sent
    → IsDone (done ++ keys) (v, false)
stopped-IsDone done keys w v s same = record {
  unsent = w.batch ++ keys;
  began = rw same (ap (λ xs. xs ++ keys) s.split_up ∙ append_assoc (concat w.sent) w.batch keys);
  bounded = rw same s.bounded;
  finished = λ e. cc;
}

empty_of_length : (xs : List Text) → length xs ≡ 0 → xs ≡ []
empty_of_length [] h = refl
empty_of_length (x ∷ xs) h = absurd (omega arith)

emptied-IsDone :
    (done : List Text) (w : Sweep) → IsSwept done w → w.counter ≡ 0 → IsDone done (w, true)
emptied-IsDone done w s zero_left = record {
  unsent = w.batch;
  began = s.split_up;
  bounded = s.bounded;
  finished = λ e. (empty_of_length w.batch (omega (arith, s.counted)), s.total);
}

last_batch-IsDone :
    (exec_ok : ℕ → Bool) (done : List Text) (w : Sweep)
    → IsSwept done w
    → 0 < w.counter
    → IsDone done (elim (exec_batch exec_ok w) [ none ↦ (w, false) | some v ↦ (v, true) ])
last_batch-IsDone exec_ok done w s left = elim (Option-cases (exec_batch exec_ok w)) [
  | inl refused ↦ rw refused (rw append-nil at (stopped-IsDone done [] w w s refl))
  | inr (v, e) ↦
      let swept : IsSwept done v =
        exec_batch-IsSwept exec_ok done w v (s.split_up, s.total, s.bounded)
          (omega (arith, s.counted, s.small)) e in
      rw e (emptied-IsDone done v swept (exec_batch-sent exec_ok w v e).2)
]

pub sweep_keys-IsDone :
    (exec_ok : ℕ → Bool) (scan_ok : Bool) (done keys : List Text) (w : Sweep)
    → IsSwept done w
    → IsDone (done ++ keys) (sweep_keys exec_ok scan_ok keys w)
unfolding sweep_keys
sweep_keys-IsDone exec_ok false done [] w s = stopped-IsDone done [] w w s refl
sweep_keys-IsDone exec_ok true done [] w s = elim (Bool-cases (ltb 0 w.counter)) [
  | inl left ↦ rw (left, append-nil done) (last_batch-IsDone exec_ok done w s (ground arith))
  | inr clear ↦ rw (clear, append-nil done) (emptied-IsDone done w s (ground arith))
]
sweep_keys-IsDone exec_ok scan_ok done (key ∷ keys) w s =
    elim (Option-cases (sweep_key exec_ok key w)) [
      | inl refused ↦
          rw (refused, sweep_keys) (stopped-IsDone done (key ∷ keys) w (add_key key w) s refl)
      | inr (v, e) ↦
          rw (e, sweep_keys)
            (rw (append_assoc done (key ∷ []) keys) at (
              sweep_keys-IsDone exec_ok scan_ok (done ++ key ∷ []) keys v
                (sweep_key-IsSwept exec_ok key done w v s e)))
    ]

sweep_key-some :
    (exec_ok : ℕ → Bool) (key : Text) (w : Sweep)
    → ((n : ℕ) → exec_ok n ≡ true)
    → (v : Sweep) × (sweep_key exec_ok key w ≡ some v)
unfolding sweep_key
sweep_key-some exec_ok key w h = elim (Option-cases (sweep_key exec_ok key w)) [
  | inl e ↦ absurd (ground (arith, h (length w.sent)))
  | inr found ↦ found
]

pub always-finished :
    (exec_ok : ℕ → Bool) (keys : List Text) (w : Sweep)
    → ((n : ℕ) → exec_ok n ≡ true)
    → (sweep_keys exec_ok true keys w).1 ≡ true
unfolding sweep_keys exec_batch
always-finished exec_ok [] w h = ground (arith, h (length w.sent))
always-finished exec_ok (key ∷ keys) w h =
    let (v, e) = sweep_key-some exec_ok key w h in
    rw (e, sweep_keys) (always-finished exec_ok keys v h)
