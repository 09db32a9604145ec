-- ===== src/Manager/Resize/Move.antt =====
-- The way in which `mem_resize` allocates first and frees then.
use assignment2_c.Prelude.{ℕ, ◌≡◌, ◌≢◌, ◌<◌, ◌⊎◌, refl, arith, length, inl, inr, ==_of_ne}
use assignment2_c.Manager.{Adress, null, BlockTable, Manager, ok, holding, int_max}
use assignment2_c.Manager.Layout.{IsValid}
use assignment2_c.Manager.Layout.FirstFit.{NoFit}
use assignment2_c.Manager.Layout.Used.{used, Inserted, without, used-Ranges}
use assignment2_c.Manager.Layout.Ranges.{In, apart, without-Inserted, In-without}
use assignment2_c.Manager.Alloc.{Realloc, mem_alloc}
use assignment2_c.Manager.Alloc.Take.{HasRoom}
use assignment2_c.Manager.Alloc.HandOut.{mem_alloc-HandsOut}
use assignment2_c.Manager.Free.{mem_free}
use assignment2_c.Manager.Free.TakeBack.{mem_free-TakesBack}
use assignment2_c.Manager.Resize.{moved, move_block}
use assignment2_c.Manager.Resize.Replace.{
  Resized, locked, IsValid-same, memmove_lem, moved_inside, spared,
}

module _ (realloc : Realloc) (s : Manager) (xs junk : BlockTable) (p old size : ℕ)
    (v : IsValid s xs) (given : p ≢ null) (there : In p old (used xs)) (some_bytes : 0 < old)
    (larger : old < size) where
  -- The state with the bytes moved.
  abbrev after_move : Adress → Manager
  after_move q = record (locked s) { bytes = moved s.bytes q p old }

  relocated :
      (q : Adress) (zs ws junk' junk'' : BlockTable)
      → mem_alloc realloc size (holding (locked s) xs junk) ≡ ok q (holding (locked s) zs junk')
      → q ≢ null
      → IsValid s zs
      → Inserted (q, size) (used xs) (used zs)
      → mem_free p (holding (after_move q) zs junk') ≡ ok tt (holding (after_move q) ws junk'')
      → IsValid s ws
      → used ws ≡ without p (used zs)
      → Resized s xs p old size (move_block realloc p size old (holding (locked s) xs junk))
  unfolding move_block
  relocated q zs ws junk' junk'' e ne vz i f vw u =
      let r = used-Ranges zs _ _ vz.tiling in
      let far = apart (used xs) (used zs) q size p old _ _ i r there in
      let i' = without-Inserted (used xs) (used zs) p q size (λ z. omega (arith, far, z)) i in
      record {
        adress = q;
        blocks = ws;
        junk = junk'';
        bytes = moved s.bytes q p old;
        returns =
            rw (
              e,
              ==_of_ne q null ne,
              memmove_lem (holding (locked s) zs junk') q p old ne given,
              f,
            );
        ne_null = ne;
        valid = vw;
        inserted = rw u i';
        content = λ k h l. moved_inside s.bytes q p old k h;
        others = λ o m k h l.
            spared s.bytes (used xs) (used zs) q p old size o m k _ _ i r (omega arith)
              (In-without (used xs) p o m h) l;
      }

  freed_then :
      (q : Adress) (zs junk' : BlockTable)
      → mem_alloc realloc size (holding (locked s) xs junk) ≡ ok q (holding (locked s) zs junk')
      → q ≢ null
      → IsValid s zs
      → Inserted (q, size) (used xs) (used zs)
      → Resized s xs p old size (move_block realloc p size old (holding (locked s) xs junk))
  freed_then q zs junk' e ne vz i =
      let t =
        mem_free-TakesBack (after_move q) zs junk' p
          (IsValid-same s (after_move q) zs refl refl vz) in
      relocated q zs t.blocks junk' t.junk e ne vz i t.returns
        (IsValid-same (after_move q) s t.blocks refl refl t.valid) t.taken

  failed :
      mem_alloc realloc size (holding (locked s) xs junk) ≡ ok null (holding (locked s) xs junk)
      → move_block realloc p size old (holding (locked s) xs junk) ≡ ok null (holding s xs junk)
  unfolding move_block
  failed e = rw e

  pub move_block-Resized :
      HasRoom realloc
      → length xs < int_max
      → ((move_block realloc p size old (holding (locked s) xs junk) ≡ ok null (holding s xs junk))
          × NoFit size xs)
        ⊎ Resized s xs p old size (move_block realloc p size old (holding (locked s) xs junk))
  move_block-Resized room few =
      elim (mem_alloc-HandsOut realloc size (locked s) xs junk room (omega arith) few
        (IsValid-same s (locked s) xs refl refl v)) [
          | inl (e, none_fits) ↦ inl (failed e, none_fits)
          | inr h ↦ inr (
              freed_then h.adress h.blocks h.junk h.returns h.ne_null
                (IsValid-same (locked s) s h.blocks refl refl h.valid) h.inserted)
        ]
