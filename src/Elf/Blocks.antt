-- ===== src/Elf/Blocks.antt =====
-- Writes of the image inside one of its blocks.
use solanago.Base.{Bool, true, ◌&&◌, leb, ℕ, ◌+◌, ◌≤◌, ◌≡◌, sym, ap, ◌∙◌, some, arith}
use solanago.Base.{List, [], ◌∷◌, length, get_elem?, set}
use solanago.Base.Splice.{splice, length-splice}
use solanago.Base.Blocks.{join, before, splice-join, before-set}
use solanago.Base.{get_elem?-set, set-same, set-set}
use solanago.Elf.Build.{Write, write_at}

-- The test that every write lies within so many bytes.
abbrev pub fits : ℕ → ℕ → List Write → Bool
fits size start [] = true
fits size start ((offset, new) ∷ rest) =
    leb (start + offset + length new) size && fits size start rest

fits-cons :
    (size start offset : ℕ) (new : List ℕ) (rest : List Write)
    → fits size start ((offset, new) ∷ rest) ≡ true
    → (start + offset + length new ≤ size) × (fits size start rest ≡ true)
fits-cons size start offset new rest h = (ground arith, ground arith)

-- Writes inside a block make the block what they make of it alone.
pub write_at-join :
    (ws : List Write) (blocks : List (List ℕ)) (i : ℕ) (b : List ℕ) (start offset : ℕ)
    → get_elem? blocks i ≡ some b
    → start ≡ before blocks i + offset
    → fits (length b) offset ws ≡ true
    → write_at (join blocks) start ws ≡ join (set blocks i (write_at b offset ws))
write_at-join [] blocks i b start offset e s h = ap join (sym (set-same blocks i b e))
write_at-join ((o, new) ∷ ws) blocks i b start offset e s hs' =
    let (h, hs) = fits-cons (length b) offset o new ws hs' in
    let here : start + o ≡ before blocks i + (offset + o) = omega arith in
    let blocks' = set blocks i (splice b (offset + o) new) in
    rw (here, splice-join blocks i b (offset + o) new e h)
      (write_at-join ws blocks' i (splice b (offset + o) new) start offset
          (get_elem?-set blocks i b _ e) (s ∙ ap (λ n. n + offset) (sym (before-set blocks i _)))
          (rw (length-splice b (offset + o) new h) hs)
        ∙ ap join (set-set blocks i _ _))
