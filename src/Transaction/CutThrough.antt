-- ===== src/Transaction/CutThrough.antt =====
-- core/src/core/transaction.rs: cut_through, which moves what is kept to the front of each slice by
-- swaps.
use grin.Prelude.{
  ℕ, zero, suc, ◌+◌, ◌-◌, List, map, length, get_elem?, set, take, drop, ltb, if◌then◌else◌, Option,
  some, none, Result, ok, err,
}
use grin.Prelude.Sorting.{sort, any_adjacent}
use grin.Transaction.Errors.{Error, cut_through as cut_through_error}

module _ {A : Type 0} where
  abbrev swap_found : List A → ℕ → ℕ → Option A → Option A → Option (List A)
  swap_found xs i j (some a) (some b) = some (set (set xs i b) j a)
  swap_found xs i j none b = none
  swap_found xs i j (some a) none = none

  -- slice::swap, which panics out of range.
  unfoldable pub swap : List A → ℕ → ℕ → Option (List A)
  swap xs i j = swap_found xs i j (get_elem? xs i) (get_elem? xs j)

abbrev pub and_then {ℓ κ} : {A : Type ℓ} {B : Type κ} → Option A → (A → Option B) → Option B
and_then (some a) f = f a
and_then none f = none

pub record CutState (A B : Type 0) : Type 0 where
  pub inputs : List A
  pub outputs : List B
  pub inputs_idx : ℕ
  pub outputs_idx : ℕ
  pub ncut : ℕ

module _ {A B : Type 0} (commit : A → ℕ) (commit' : B → ℕ) where
  -- One round of the first loop, by the elements at the two indices; it ends where one is missing.
  -- `ncut` never exceeds an index.
  unfoldable pub cut_round :
      (CutState A B → Option (CutState A B))
      → CutState A B
      → Option A
      → Option B
      → Option (CutState A B)
  cut_round next s (some x) (some y) =
      if ltb (commit x) (commit' y)
      then and_then (swap (s.inputs) (s.inputs_idx - s.ncut) (s.inputs_idx))
          (λ inputs. next (record s { inputs = inputs; inputs_idx = s.inputs_idx + 1 }))
      else if ltb (commit' y) (commit x)
      then and_then (swap (s.outputs) (s.outputs_idx - s.ncut) (s.outputs_idx))
          (λ outputs. next (record s { outputs = outputs; outputs_idx = s.outputs_idx + 1 }))
      else next (record s {
        inputs_idx = s.inputs_idx + 1;
        outputs_idx = s.outputs_idx + 1;
        ncut = s.ncut + 1;
      })
  cut_round next s none y = some s
  cut_round next s (some x) none = some s

  unfoldable pub cut_loop : ℕ → CutState A B → Option (CutState A B)
  cut_loop zero s = none
  cut_loop (suc fuel) s =
      cut_round (λ t. cut_loop fuel t) s (get_elem? (s.inputs) (s.inputs_idx))
        (get_elem? (s.outputs) (s.outputs_idx))

module _ {A : Type 0} where
  -- The loops that move what is left.
  unfoldable pub shift_loop : ℕ → List A → ℕ → ℕ → Option (List A)
  shift_loop zero xs idx ncut = none
  shift_loop (suc fuel) xs idx ncut =
      let rest = and_then (swap xs (idx - ncut) idx) (λ ys. shift_loop fuel ys (idx + 1) ncut) in
      if ltb idx (length xs) then rest else some xs

pub record CutResult (A B : Type 0) : Type 0 where
  pub inputs : List A
  pub outputs : List B
  pub inputs_cut : List A
  pub outputs_cut : List B

-- The Ord of both types compares hashes; `none` is a panic.
module _ {A B : Type 0} (commit : A → ℕ) (commit' : B → ℕ) (hash : A → ℕ) (hash' : B → ℕ) where
  unfoldable pub split_cut : ℕ → List A → List B → CutResult A B
  split_cut ncut inputs outputs = record {
    inputs = sort hash (take (length inputs - ncut) inputs);
    outputs = sort hash' (take (length outputs - ncut) outputs);
    inputs_cut = sort hash (drop (length inputs - ncut) inputs);
    outputs_cut = sort hash' (drop (length outputs - ncut) outputs);
  }

  unfoldable pub check_cut : CutResult A B → Result Error (CutResult A B)
  check_cut res =
      if any_adjacent (map hash (res.inputs))
      then err cut_through_error
      else if any_adjacent (map hash' (res.outputs))
      then err cut_through_error
      else ok res

  unfoldable pub cut_through : List A → List B → Option (Result Error (CutResult A B))
  cut_through inputs outputs =
      and_then
        (cut_loop commit commit' (length inputs + length outputs + 1) (record {
          inputs = sort commit inputs;
          outputs = sort commit' outputs;
          inputs_idx = 0;
          outputs_idx = 0;
          ncut = 0;
        }))
        (λ s. and_then (shift_loop (length inputs + 1) (s.inputs) (s.inputs_idx) (s.ncut)) (λ ins.
          and_then (shift_loop (length outputs + 1) (s.outputs) (s.outputs_idx) (s.ncut))
            (λ outs. some (check_cut (split_cut (s.ncut) ins outs)))))
