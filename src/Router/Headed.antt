-- ===== src/Router/Headed.antt =====
-- The Ethernet header of a packet after its addresses and its type are put in.
use pcom.Prelude.{ℕ, ◌+◌, ◌≤◌, List, ◌≡◌, inl, inr, ◌∙◌, arith, length}
use pcom.Bytes.{
  load8, load32, le16, patch, slice, length-patch, load8-patch_outside, slice-patch_self,
  slice-patch_outside,
}

-- The Ethernet header with its parts put in, in either order of the addresses.
abbrev pub headed : (p sha dha : List ℕ) → ℕ → List ℕ
headed p sha dha type = patch (patch (patch p 0 dha) 6 sha) 12 (le16 type)

abbrev pub headed' : (p sha dha : List ℕ) → ℕ → List ℕ
headed' p sha dha type = patch (patch (patch p 6 sha) 0 dha) 12 (le16 type)

module _ (p sha dha : List ℕ) (v : 42 ≤ length p) (ls : length sha ≡ 6) (ld : length dha ≡ 6)
    (type : ℕ) where
  pub length-headed : length (patch (patch p 0 dha) 6 sha) ≡ length p
  length-headed = length-patch (patch p 0 dha) 6 sha ∙ length-patch p 0 dha

  pub length-headed' : length (patch (patch p 6 sha) 0 dha) ≡ length p
  length-headed' = length-patch (patch p 6 sha) 0 dha ∙ length-patch p 6 sha

  pub headed-dhost : slice (headed p sha dha type) 0 6 ≡ dha
  headed-dhost =
      slice-patch_outside (patch (patch p 0 dha) 6 sha) 0 6 12 (le16 type)
        (omega (arith, length-headed)) (inl (omega arith))
      ∙ slice-patch_outside (patch p 0 dha) 0 6 6 sha (omega (arith, length-patch p 0 dha))
          (inl (omega arith))
      ∙ (rw ld at (slice-patch_self p 0 dha (omega arith)))

  pub headed-shost : slice (headed p sha dha type) 6 6 ≡ sha
  headed-shost =
      slice-patch_outside (patch (patch p 0 dha) 6 sha) 6 6 12 (le16 type)
        (omega (arith, length-headed)) (inl (omega arith))
      ∙ (rw ls at (slice-patch_self (patch p 0 dha) 6 sha (omega (arith, length-patch p 0 dha))))

  pub headed-type : slice (headed p sha dha type) 12 2 ≡ le16 type
  headed-type =
      slice-patch_self (patch (patch p 0 dha) 6 sha) 12 (le16 type) (omega (arith, length-headed))

  pub headed'-dhost : slice (headed' p sha dha type) 0 6 ≡ dha
  headed'-dhost =
      slice-patch_outside (patch (patch p 6 sha) 0 dha) 0 6 12 (le16 type)
        (omega (arith, length-headed')) (inl (omega arith))
      ∙ (rw ld at (slice-patch_self (patch p 6 sha) 0 dha (omega (arith, length-patch p 6 sha))))

  pub headed'-shost : slice (headed' p sha dha type) 6 6 ≡ sha
  headed'-shost =
      slice-patch_outside (patch (patch p 6 sha) 0 dha) 6 6 12 (le16 type)
        (omega (arith, length-headed')) (inl (omega arith))
      ∙ slice-patch_outside (patch p 6 sha) 6 6 0 dha (omega (arith, length-patch p 6 sha))
          (inr (omega arith))
      ∙ (rw ls at (slice-patch_self p 6 sha (omega arith)))

  pub headed'-type : slice (headed' p sha dha type) 12 2 ≡ le16 type
  headed'-type =
      slice-patch_self (patch (patch p 6 sha) 0 dha) 12 (le16 type) (omega (arith, length-headed'))

  pub headed-load32 : (j : ℕ) → 14 ≤ j → load32 (headed p sha dha type) j ≡ load32 p j
  headed-load32 j h = omega (
    arith,
    same j h,
    same (j + 1) (omega arith),
    same (j + 2) (omega arith),
    same (j + 2 + 1) (omega arith),
  )
    where
      same : (i : ℕ) → 14 ≤ i → load8 (headed p sha dha type) i ≡ load8 p i
      same i l =
          load8-patch_outside (patch (patch p 0 dha) 6 sha) 12 (le16 type) i (omega arith)
          ∙ load8-patch_outside (patch p 0 dha) 6 sha i (omega arith)
          ∙ load8-patch_outside p 0 dha i (omega arith)
