-- ===== src/Tracer/Examples.antt =====
-- Requests to the temporary buffer, with `tmpbuff` at address 5000.
use assignment2_c.Prelude.{◌≡◌, refl, none, some, [], ◌∷◌, arith}
use assignment2_c.Tracer.{TempBuffer, temp_alloc, serve}
use assignment2_c.Tracer.Temp.{Served, serve-Ranges, serve-exits}

abbrev unused : TempBuffer
unused = record { tmppos = 0; tmpallocs = 0 }

serve_two :
    serve 5000 (32 ∷ 1 ∷ []) unused
    ≡ some ((5000, 32) ∷ (5032, 1) ∷ [], record { tmppos = 33; tmpallocs = 2 })
unfolding serve temp_alloc
serve_two = refl

serve-Ranges_example : Served 5000 (32 ∷ 1 ∷ []) unused
serve-Ranges_example = serve-Ranges 5000 (32 ∷ 1 ∷ []) unused (omega arith)

serve-exits_example : serve 5000 (32 ∷ 992 ∷ []) unused ≡ none
serve-exits_example =
    serve-exits 5000 (32 ∷ 992 ∷ []) unused (omega arith) (omega arith) (omega arith)
