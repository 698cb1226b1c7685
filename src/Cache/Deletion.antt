-- ===== src/Cache/Deletion.antt =====
-- `deleteByPattern` of core/cache/cache.service.ts: which keys are unlinked, in what batches.
use onekey_balance_kit.Base.{
  ℕ, ◌≡◌, refl, sym, Bool, true, false, List, [], ◌++◌, Text, if◌then◌else◌, length, All,
  append-nil, Bool-cases, inl, inr, ◌⊎◌,
}
use onekey_balance_kit.Cache.{
  StoreView, CacheService, ensure_connection, Sweep, start_sweep, sweep_keys, delete_by_pattern,
}
use onekey_balance_kit.Cache.Batches.{
  concat, IsBatch, IsDone, start-IsSwept, sweep_keys-IsDone, always-finished,
}

-- What a call of `deleteByPattern` may do, given the keys that the scan yields.
pub record IsPurged (keys : List Text) (count : ℕ) (batches : List (List Text)) : Type 0 where
  pub unsent : List Text
  pub began : keys ≡ concat batches ++ unsent
  pub bounded : All IsBatch batches
  pub counted : (count ≡ 0) ⊎ ((count ≡ length keys) × (unsent ≡ []))

IsDone-IsPurged :
    (keys : List Text) (w : Sweep) (finished : Bool)
    → IsDone keys (w, finished)
    → IsPurged keys (if finished then w.total else 0) w.sent
IsDone-IsPurged keys w true d = record {
  unsent = d.unsent;
  began = d.began;
  bounded = d.bounded;
  counted = inr ((d.finished refl).1, (d.finished refl).0);
}
IsDone-IsPurged keys w false d = record {
  unsent = d.unsent;
  began = d.began;
  bounded = d.bounded;
  counted = inl refl;
}

-- Whatever the scan and the batches do: the keys that were sent to be unlinked are the first of the
-- scanned keys, each once and in order, in batches of 1 to 500; the number returned is 0, or the
-- number of all scanned keys, and then all of them were sent.
pub delete_by_pattern-IsPurged :
    {C : Type 0} (stores : List (StoreView C)) (exec_ok : ℕ → Bool) (scan_ok : Bool)
    (keys : List Text) (s : CacheService C)
    → let r = delete_by_pattern stores exec_ok scan_ok keys s in IsPurged keys r.count r.batches
unfolding delete_by_pattern
delete_by_pattern-IsPurged stores exec_ok scan_ok keys s =
    elim (Bool-cases (ensure_connection stores s).0) [
      | inl connected ↦
          let r = sweep_keys exec_ok scan_ok keys start_sweep in
          rw connected (
            IsDone-IsPurged keys r.0 r.1
              (sweep_keys-IsDone exec_ok scan_ok [] keys start_sweep start-IsSwept))
      | inr closed ↦
          rw closed (record { unsent = keys; began = refl; bounded = tt; counted = inl refl })
    ]

-- With a connection, a scan that ends and batches that succeed, every scanned key is sent, and the
-- number of keys is returned.
pub delete_by_pattern-all :
    {C : Type 0} (stores : List (StoreView C)) (exec_ok : ℕ → Bool) (keys : List Text)
    (s : CacheService C)
    → (ensure_connection stores s).0 ≡ true
    → ((n : ℕ) → exec_ok n ≡ true)
    → let r = delete_by_pattern stores exec_ok true keys s in
      (concat r.batches ≡ keys) × (r.count ≡ length keys)
unfolding delete_by_pattern
delete_by_pattern-all stores exec_ok keys s connected h =
    let done = sweep_keys-IsDone exec_ok true [] keys start_sweep start-IsSwept in
    let all_sent = done.finished (always-finished exec_ok keys start_sweep h) in
    rw (connected, always-finished exec_ok keys start_sweep h)
      (sym (rw (all_sent.0, append-nil) at done.began), all_sent.1)
