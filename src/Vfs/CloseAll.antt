-- ===== src/Vfs/CloseAll.antt =====
-- The loop over vfs_close in task_terminate and task_release of core/tasks/tasks.c.
use bomboclaat_os.Base.{
  ℕ, zero, suc, ◌+◌, ◌≤◌, ◌<◌, ◌≡◌, refl, sym, ap, ◌∙◌, ◌≢◌, inl, inr, ◌==◌, ==_iff, Bool-cases,
  length, get_or, length-set, get_or-set_self, get_or-set_ne, arith,
}
use bomboclaat_os.Vfs.{Files, Table, close_slot, close_from, max_files_per_task}
use bomboclaat_os.Vfs.Table.{occurrences-none}
use bomboclaat_os.Vfs.Refs.{refs, IsCounted, close_slot-IsCounted}

-- Closing `n` slots from `i` on.
record Closed (outside : ℕ → ℕ) (n i : ℕ) (table : Table) (out : Table × Files) : Type 0 where
  same_length : length out.0 ≡ length table
  empty : (j : ℕ) → i ≤ j → j < i + n → get_or out.0 j 0 ≡ 0
  before : (j : ℕ) → j < i → get_or out.0 j 0 ≡ get_or table j 0
  counted : IsCounted outside out.0 out.1

record ClosedSlot (outside : ℕ → ℕ) (i : ℕ) (table table' : Table) (files' : Files) : Type 0 where
  same_length : length table' ≡ length table
  empty : get_or table' i 0 ≡ 0
  others : (j : ℕ) → i ≢ j → get_or table' j 0 ≡ get_or table j 0
  counted : IsCounted outside table' files'

close_slot-ClosedSlot :
    (outside : ℕ → ℕ) (i : ℕ) (table : Table) (files : Files)
    → i < length table
    → IsCounted outside table files
    → ClosedSlot outside i table (close_slot i table files).1 (close_slot i table files).2
close_slot-ClosedSlot outside i table files lt v =
    let done = close_slot-IsCounted outside i table files lt v in
    unfold close_slot in
    elim (Bool-cases (get_or table i 0 == 0)) [
      | inl null ↦ record {
        same_length = rw null;
        empty = rw null (ground arith);
        others = λ j ne. rw null;
        counted = done;
      }
      | inr held ↦ record {
        same_length = rw held (length-set table i 0);
        empty = rw held (get_or-set_self table i 0 0 lt);
        others = λ j ne. rw held (get_or-set_ne table i j 0 0 ne);
        counted = done;
      }
    ]

close_from-Closed :
    (outside : ℕ → ℕ) (n i : ℕ) (table : Table) (files : Files)
    → i + n ≤ length table
    → IsCounted outside table files
    → Closed outside n i table (close_from n i table files)
unfolding close_from
close_from-Closed outside zero i table files fits v = record {
  same_length = refl;
  empty = λ j lo hi. absurd (omega arith);
  before = λ j lt. refl;
  counted = v;
}
close_from-Closed outside (suc n) i table files fits v =
    let one = close_slot-ClosedSlot outside i table files (omega arith) v in
    let t = (close_slot i table files).1 in
    let rest =
      close_from-Closed outside n (i + 1) t (close_slot i table files).2
        (omega (arith, one.same_length)) one.counted in
    record {
      same_length = rest.same_length ∙ one.same_length;
      empty = λ j lo hi. elim (Bool-cases (i == j)) [
        | inl e ↦
            let same : i ≡ j = (==_iff i j).0 e in
            rest.before j (omega arith) ∙ sym (ap (λ k. get_or t k 0) same) ∙ one.empty
        | inr ne ↦ rest.empty j (ground arith) (omega arith)
      ];
      before = λ j lt. rest.before j (omega arith) ∙ one.others j (λ e. omega arith);
      counted = rest.counted;
    }

-- Ending a task closes all of its descriptors: every slot of its table is null, and each file that
-- is still open counts the descriptors of the other tables alone.
pub close_all_lem :
    (outside : ℕ → ℕ) (table : Table) (files : Files)
    → length table ≡ max_files_per_task
    → IsCounted outside table files
    → let (table', files') = close_from max_files_per_task 0 table files in
      ((j : ℕ) → j < max_files_per_task → get_or table' j 0 ≡ 0)
      × IsCounted outside table' files'
      × ((p : ℕ) → p ≢ 0 → refs files' p ≡ outside p)
close_all_lem outside table files len v =
    let done = close_from-Closed outside max_files_per_task 0 table files (omega arith) v in
    let (table', files') = close_from max_files_per_task 0 table files in
    (
      (λ j lt. done.empty j (omega arith) (omega arith)),
      done.counted,
      (λ p nz. omega (
        arith,
        done.counted.counts p nz,
        occurrences-none table' p nz
            (λ j lt. done.empty j (omega arith) (omega (arith, done.same_length))),
      )),
    )
