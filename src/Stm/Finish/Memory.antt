-- ===== src/Stm/Finish/Memory.antt =====
-- What `stm_finish_local` leaves in memory, in every configuration.
use mathlib.Core.Path.{subst}
use cluster_stm.Common.{
  Bool, true, false, if◌then◌else◌, ℕ, ◌-◌, ◌<◌, ◌%◌, ◌≡◌, ◌∙◌, refl, sym, ap, inl, inr, Option,
  none, some, List, [], ◌∷◌, ◌==◌, if◌then◌else◌, arith, lookup, Distinct, Bool-cases, ==_refl,
  ==_ne, ==→eq,
}
use cluster_stm.Common.Blocks.{align_down, in_block}
use cluster_stm.Stm.Types.{commit, abort, is_write, Config, StmStatus}
use cluster_stm.Stm.Meta.{share_pos}
use cluster_stm.Stm.Node.{Buffer, DatasetEntry, Libs, Node, share_bytes, entry_of, write_bytes}
use cluster_stm.Stm.Finish.{copied_back, copy_block, finish_entry, finish_entries, stm_finish_local}
use cluster_stm.Stm.Locking.{IsAligned, IsKeyed}

-- The byte at `x` of a block that starts at `a`, if a buffer or nothing was copied over the block.
abbrev pub byte_from : Option Buffer → (mem : ℕ → ℕ) → (a x : ℕ) → ℕ
byte_from none mem a x = mem x
byte_from (some buf) mem a x = buf (x - a)

-- Of a WRITE entry, a commit keeps what was buffered, and an abort brings back what was there when
-- the block was opened.
abbrev pub final_buffer : (write_buffering : Bool) → StmStatus → DatasetEntry → Option Buffer
final_buffer true commit e = e.wb_data
final_buffer true abort e = none
final_buffer false commit e = none
final_buffer false abort e = e.undo_data

abbrev pub kept_buffer : Config → StmStatus → DatasetEntry → Option Buffer
kept_buffer c status e = if is_write e.type then final_buffer c.write_buffering status e else none

copied_back_lem :
    (c : Config) (status : StmStatus) (e : DatasetEntry)
    → copied_back c status e ≡ kept_buffer c status e
unfolding copied_back
copied_back_lem c status e = ground arith

-- The same after the block's entry was finished, if it had one.
abbrev pub finished_byte : Config → StmStatus → Option DatasetEntry → (ℕ → ℕ) → (a x : ℕ) → ℕ
finished_byte c status none mem a x = mem x
finished_byte c status (some e) mem a x = byte_from (kept_buffer c status e) mem a x

copy_block-byte :
    (size : ℕ)
    → 0 < size
    → (mem : ℕ → ℕ) (a x : ℕ) (o : Option Buffer) → a % size ≡ 0
    → copy_block mem a size o x ≡ (if align_down x size == a then byte_from o mem a x else mem x)
unfolding write_bytes
copy_block-byte size pos mem a x none al = ground arith
copy_block-byte size pos mem a x (some buf) al = rw (in_block size pos a x al)

finished_byte-cong :
    (c : Config) (status : StmStatus) (o : Option DatasetEntry) (mem mem' : ℕ → ℕ) (a x : ℕ)
    → mem x ≡ mem' x
    → finished_byte c status o mem a x ≡ finished_byte c status o mem' a x
finished_byte-cong c status none mem mem' a x h = h
finished_byte-cong c status (some e) mem mem' a x h = go (kept_buffer c status e)
  where
    go : (o : Option Buffer) → byte_from o mem a x ≡ byte_from o mem' a x
    go none = h
    go (some buf) = refl

module _ {l : Libs} (c : Config) (status : StmStatus) where
  finish_entry-byte :
      (n : Node l) (a x : ℕ) (e : DatasetEntry)
      → IsAligned n.share_power a
      → (finish_entry c status n a e).mem x ≡ (
          if align_down x (share_bytes n) == a
          then finished_byte c status (some e) n.mem a x
          else n.mem x)
  unfolding finish_entry
  finish_entry-byte n a x e al =
      rw (copied_back_lem c status e)
        (copy_block-byte (share_bytes n) (share_pos n.share_power) n.mem a x _ al)

  -- No entry but that of its block decides what becomes of a byte.
  finish_entries-byte :
      (es : List (ℕ × DatasetEntry)) (n : Node l) (x : ℕ)
      → Distinct es
      → ((a : ℕ) (e : DatasetEntry) → lookup a es ≡ some e → IsAligned n.share_power a)
      → (finish_entries c status n es).mem x
        ≡ finished_byte c status
            (lookup (align_down x (share_bytes n)) es)
            n.mem
            (align_down x (share_bytes n))
            x
  unfolding finish_entries lookup
  finish_entries-byte [] n x d al = refl
  finish_entries-byte ((a, e) ∷ es) n x d al =
      finish_entries-byte es (finish_entry c status n a e) x d.1 later_aligned
      ∙ elim (Bool-cases (b == a)) [
        | inl same ↦
            rw same (rw (==→eq b a same) (rw d.0 (finish_entry-byte n a x e al' ∙ rw same)))
        | inr ne ↦ rw ne (
            finished_byte-cong c status (lookup b es) _ n.mem b x
              (finish_entry-byte n a x e al' ∙ rw ne))
      ]
    where
      b : ℕ
      b = align_down x (share_bytes n)

      al' : IsAligned n.share_power a
      al' = al a e (rw (==_refl a))

      later_aligned : (k : ℕ) (f : DatasetEntry) → lookup k es ≡ some f → IsAligned n.share_power k
      later_aligned k f h =
          al k f (rw (==_ne k a (λ q. cc (sym d.0 ∙ subst (λ j. lookup j es ≡ some f) q h))) h)

  -- What the end of a transaction leaves at each address: if the transaction has the block open for
  -- writing, the byte of the write buffer at a commit that buffers writes and that of the undo log
  -- at an abort that does not, and otherwise what was there. (The entries are those of blocks.)
  pub stm_finish_local-byte :
      (n : Node l) (p x : ℕ)
      → IsKeyed l n.share_power (n.tx_dors p).dataset
      → (stm_finish_local c n p status).0.mem x
        ≡ finished_byte c status
            (entry_of n p (align_down x (share_bytes n)))
            n.mem
            (align_down x (share_bytes n))
            x
  unfolding stm_finish_local
  stm_finish_local-byte n p x keyed =
      let m = (n.tx_dors p).dataset in
      finish_entries-byte (l.datasets.entries m) n x (l.datasets.entries-Distinct m)
        (λ a e h. keyed a e (sym (l.datasets.lookup-entries m a) ∙ h))
      ∙ ap (λ o. finished_byte c status o n.mem (align_down x (share_bytes n)) x)
          (l.datasets.lookup-entries m _)
