-- ===== src/Programs/Loader/Data.antt =====
-- The program data that a deployment writes.
use tiny_solana.Common.{
  ℕ, zero, suc, take, ◌-◌, ◌<◌, ◌≤◌, ◌≡◌, ◌≢◌, refl, sym, ap, ◌∙◌, some, [], ◌∷◌, ◌++◌, arith,
  get_elem?, set, drop, length, get_elem?-set_ne, get_elem?-set_self, get_elem?-lt,
}
use tiny_solana.Common.Result.{ok}
use tiny_solana.Types.{Pubkey, Bytes}
use tiny_solana.Accounts.{Account}
use tiny_solana.Common.Word.{u64_mod, wrapping_add}
use tiny_solana.Runtime.{AccountInfo, InvokeContext, Machine, Executor}
use tiny_solana.Runtime.Memory.Slices.{take-append}
use tiny_solana.Runtime.Actions.{with_front}
use tiny_solana.Programs.Loader.Pack.{IsCanonical, pack_into_account-ok}
use tiny_solana.Programs.Loader.{buffer, program_data, LoaderDeps, pack_into_account, copy_code}
use tiny_solana.Programs.Loader.Steps.{copy_code-ok}

take_all : (n : ℕ) (xs : Bytes) → length xs ≤ n → take n xs ≡ xs
take_all n [] h = take-none n
  where
    take-none : (n : ℕ) → take {A = ℕ} n [] ≡ []
    take-none zero = refl
    take-none (suc n) = refl
take_all zero (x ∷ xs) h = absurd (omega arith)
take_all (suc n) (x ∷ xs) h = ap (λ l. x ∷ l) (take_all n xs (omega arith))

length-drop : (n : ℕ) (xs : Bytes) → length (drop n xs) ≡ length xs - n
length-drop zero xs = omega arith
length-drop (suc n) [] = omega arith
length-drop (suc n) (x ∷ xs) = omega (arith, length-drop n xs)

module _ {Rent : Type 0} (deps : LoaderDeps Rent) (execute : Executor) (ctx : InvokeContext) where
  -- Program data that was written: its state, and the code behind it.
  pub record IsDataOf (k : Pubkey) (metadata_len : ℕ) (code : Bytes) (a : Account) : Type 0 where
    pub slot : ℕ
    pub state : deps.decode_state a.contents ≡ some (program_data slot (some k))
    pub head : Bytes
    pub tail : Bytes
    pub head_size : length head ≡ metadata_len
    pub copied : a.contents ≡ head ++ (code ++ tail)

  pub write_data-ok :
      (canonical : IsCanonical deps) (k : Pubkey) (slot len metadata_len offset : ℕ)
      (buffer_info programdata : AccountInfo) (m m1 m2 : Machine) (u v : Unit {0}) (code : Account)
      → deps.serialized_size (program_data 0 (some 0)) ≡ some metadata_len
      → deps.serialized_size (buffer (some 0)) ≡ some offset
      → get_elem? m.cells buffer_info.account ≡ some code
      → offset ≤ length code.contents
      → len ≡ length code.contents - offset
      → length code.contents < u64_mod
      → pack_into_account deps (program_data slot (some k)) programdata m ≡ (ok u, m1)
      → copy_code deps execute ctx len buffer_info programdata m1 ≡ (ok v, m2)
      → (buffer_info.account ≢ programdata.account)
        × ((a : Account) × IsDataOf k metadata_len (drop offset code.contents) a
            × (get_elem? m2.cells programdata.account ≡ some a))
        × ((i : ℕ) → i ≢ programdata.account → get_elem? m2.cells i ≡ get_elem? m.cells i)
  write_data-ok canonical k slot len metadata_len offset buffer_info programdata m m1 m2 u v code
        size_p size_b cell within long bounded packs copies =
      let s = program_data slot (some k) in
      let (n, a, head, size, cell_a, _, writes, eq1) =
        pack_into_account-ok deps s programdata m m1 u packs in
      let (n', o, b, c, size', size_o, cell_b, cell_c, apart, eq2) =
        copy_code-ok deps execute ctx len buffer_info programdata m1 m2 v copies in
      let w = with_front head a in
      let rest = drop (length head) a.contents in
      let packed : m1.cells ≡ set m.cells programdata.account w =
        ap (λ (x : Machine). x.cells) eq1 in
      let there : get_elem? m1.cells programdata.account ≡ some w =
        ap (λ x. get_elem? x programdata.account) packed
        ∙ get_elem?-set_self m.cells programdata.account w
            (get_elem?-lt m.cells programdata.account cell_a) in
      let kept : get_elem? m1.cells buffer_info.account ≡ some code =
        ap (λ x. get_elem? x buffer_info.account) packed
        ∙ get_elem?-set_ne m.cells programdata.account buffer_info.account w (λ q. apart (sym q))
        ∙ cell in
      let is_c : c ≡ w = cc in
      let is_b : b ≡ code = cc in
      let is_o : o ≡ offset = cc in
      let one_size : n' ≡ metadata_len = cc in
      let sizes = canonical.same_size_data slot k in
      let n_size : n ≡ metadata_len = cc in
      let filled : length head ≡ metadata_len = canonical.sized s n head size writes ∙ n_size in
      let tail = drop (wrapping_add n' len) c.contents in
      let front : take n' c.contents ≡ head =
        ap (λ (x : Account). take n' x.contents) is_c
        ∙ ap (λ x. take x (head ++ rest)) (one_size ∙ sym filled)
        ∙ take-append head rest in
      let behind : take (wrapping_add o len - o) (drop o b.contents) ≡ drop offset code.contents =
        ap (λ x. take (wrapping_add x len - x) (drop x b.contents)) is_o
        ∙ ap (λ (x : Account). take (wrapping_add offset len - offset) (drop offset x.contents))
            is_b
        ∙ take_all (wrapping_add offset len - offset) (drop offset code.contents)
            (omega (arith, length-drop offset code.contents, within, long, bounded)) in
      let final = record c {
        contents =
            take n' c.contents ++ (take (wrapping_add o len - o) (drop o b.contents) ++ tail);
      } in
      let shape : final.contents ≡ head ++ (drop offset code.contents ++ tail) =
        ap (λ x. x ++ (take (wrapping_add o len - o) (drop o b.contents) ++ tail)) front
        ∙ ap (λ x. head ++ (x ++ tail)) behind in
      let written : m2.cells ≡ set m1.cells programdata.account final =
        ap (λ (x : Machine). x.cells) eq2 in
      (
        apart,
        (
          final,
          record {
            slot = slot;
            state =
                ap deps.decode_state shape
                ∙ canonical.reads s n head (drop offset code.contents ++ tail) size writes;
            head = head;
            tail = tail;
            head_size = filled;
            copied = shape;
          },
          ap (λ x. get_elem? x programdata.account) written
              ∙ get_elem?-set_self m1.cells programdata.account final
                  (get_elem?-lt m1.cells programdata.account cell_c),
        ),
        λ i other.
            ap (λ x. get_elem? x i) written
            ∙ get_elem?-set_ne m1.cells programdata.account i final (λ q. other (sym q))
            ∙ ap (λ x. get_elem? x i) packed
            ∙ get_elem?-set_ne m.cells programdata.account i w (λ q. other (sym q)),
      )
