-- ===== src/Cluster/Events/Rows.antt =====
-- What the deletion of old runtime logs does to the rows of `node_events`.
use meow_frp_server.Prelude.{
  ℕ, zero, suc, ◌≡◌, ◌⊎◌, ap, ◌∙◌, sym, inl, inr, Bool, true, false, List, [], ◌∷◌, arith, Bytes,
  codes, bytes_eq, Bool-cases, if◌then◌else◌,
}
use meow_frp_server.Cluster.Events.{
  EventEnvelope, StoredEvent, has_id, has_number, keep_newest_logs, Attempt, fails, succeeds,
  succeeds_only, drop_old_logs,
}

abbrev pub IsIn : {A : Type 0} → A → List A → Type 0
IsIn x [] = ⊥
IsIn x (y ∷ ys) = (x ≡ y) ⊎ IsIn x ys

abbrev pub is_log : StoredEvent → Bool
is_log r = bytes_eq r.event.event_type (codes "runtime_log")

abbrev pub row_of : ℕ → EventEnvelope → StoredEvent
row_of number e = record { number = number; event = e }

-- No id and no number is there twice.
abbrev pub Unique : List StoredEvent → Type 0
Unique [] = Unit
Unique (r ∷ rs) =
    (has_id r.event.event_id rs ≡ false) × (has_number r.number rs ≡ false) × Unique rs

-- What became of the rows: some may have gone.
pub record Pruned (rows after : List StoredEvent) : Type 0 where
  pub back : (r : StoredEvent) → IsIn r after → IsIn r rows
  pub kept : (r : StoredEvent) → IsIn r rows → is_log r ≡ false → IsIn r after
  pub no_id : (id : Bytes) → has_id id rows ≡ false → has_id id after ≡ false
  pub no_number : (n : ℕ) → has_number n rows ≡ false → has_number n after ≡ false
  pub unique : Unique rows → Unique after

same-Pruned : (rows : List StoredEvent) → Pruned rows rows
same-Pruned rows = record {
  back = λ r i. i;
  kept = λ r i _. i;
  no_id = λ id h. h;
  no_number = λ n h. h;
  unique = λ u. u;
}

behind-Pruned :
    (r : StoredEvent) (rows after : List StoredEvent)
    → Pruned rows after
    → Pruned (r ∷ rows) (r ∷ after)
unfolding has_id has_number
behind-Pruned r rows after p = record {
  back = λ x i. elim i [ inl e ↦ inl e | inr l ↦ inr (p.back x l) ];
  kept = λ x i n. elim i [ inl e ↦ inl e | inr l ↦ inr (p.kept x l n) ];
  no_id = λ id h. ground (arith, h, p.no_id id);
  no_number = λ n h. ground (arith, h, p.no_number n);
  unique = λ u. (p.no_id r.event.event_id u.0, p.no_number r.number u.1, p.unique u.2);
}

gone-Pruned :
    (r : StoredEvent) (rows after : List StoredEvent)
    → is_log r ≡ true
    → Pruned rows after
    → Pruned (r ∷ rows) after
unfolding has_id has_number
gone-Pruned r rows after l p = record {
  back = λ x i. inr (p.back x i);
  kept = λ x i n. elim i [
    | inl e ↦ absurd (ground (arith, sym l ∙ sym (ap is_log e) ∙ n))
    | inr later ↦ p.kept x later n
  ];
  no_id = λ id h. p.no_id id (ground (arith, h));
  no_number = λ n h. p.no_number n (ground (arith, h));
  unique = λ u. p.unique u.2;
}

keep_newest_logs-Pruned : (n : ℕ) (rows : List StoredEvent) → Pruned rows (keep_newest_logs n rows)
unfolding keep_newest_logs
keep_newest_logs-Pruned n [] = same-Pruned []
keep_newest_logs-Pruned zero (r ∷ rs) =
    let rest = keep_newest_logs-Pruned zero rs in
    elim (Bool-cases (is_log r)) [
      | inl l ↦ rw (l, keep_newest_logs) (gone-Pruned r rs _ l rest)
      | inr l ↦ rw (l, keep_newest_logs) (behind-Pruned r rs _ rest)
    ]
keep_newest_logs-Pruned (suc n) (r ∷ rs) =
    behind-Pruned r rs _ (keep_newest_logs-Pruned (if is_log r then n else suc n) rs)

pub drop_old_logs-Pruned :
    (a : Attempt) (e : EventEnvelope) (rows : List StoredEvent)
    → Pruned rows (drop_old_logs a e rows)
unfolding drop_old_logs
drop_old_logs-Pruned fails e rows = same-Pruned rows
drop_old_logs-Pruned succeeds_only e rows = same-Pruned rows
drop_old_logs-Pruned succeeds e rows =
    elim (Bool-cases (bytes_eq e.event_type (codes "runtime_log"))) [
      | inl l ↦ rw (l, drop_old_logs) (keep_newest_logs-Pruned 5000 rows)
      | inr l ↦ rw (l, drop_old_logs) (same-Pruned rows)
    ]
