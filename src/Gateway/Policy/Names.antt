-- ===== src/Gateway/Policy/Names.antt =====
-- Tool names in ASCII: mcp-gateway/src/mcp_gateway/policy.py, `is_privileged_tool`.
use quilr_ai_mcp.Prelude.{
  ℕ, ◌≤◌, ◌≡◌, refl, String, Bool, true, false, List, [], ◌∷◌, arith, not, str_eq, codes, All,
  is_some, select, ap,
}
use quilr_ai_mcp.Prelude.Text.{drop_prefix}
use quilr_ai_mcp.Prelude.Keys.{lower}
use quilr_ai_mcp.Gateway.Policy.{Unicode, is_invisible, normalize_tool_name, is_privileged_tool}

-- An ASCII character that is neither a space nor a control character.
abbrev pub IsVisible : ℕ → Type 0
IsVisible c = (33 ≤ c) × (c ≤ 126)

lower-IsVisible : (s : List ℕ) → All IsVisible s → All IsVisible (lower s)
unfolding lower
lower-IsVisible [] h = tt
lower-IsVisible (c ∷ cs) (h, hs) = (ground (arith, h), lower-IsVisible cs hs)

select-IsVisible :
    (f : ℕ → Bool) (s : List ℕ)
    → ((c : ℕ) → IsVisible c → f c ≡ true)
    → All IsVisible s
    → select f s ≡ s
select-IsVisible f [] kept h = refl
select-IsVisible f (c ∷ cs) kept (h, hs) = ground (arith, kept c h, select-IsVisible f cs kept hs)

module _ (unicode : Unicode) (nfkc_plain : (s : List ℕ) → All IsVisible s → unicode.nfkc s ≡ s)
    (nfd_plain : (s : List ℕ) → All IsVisible s → unicode.nfd s ≡ s)
    (nfc_plain : (s : List ℕ) → All IsVisible s → unicode.nfc s ≡ s)
    (casefold_plain : (s : List ℕ) → All IsVisible s → unicode.casefold s ≡ lower s)
    (seen : (c : ℕ) → IsVisible c → is_invisible (unicode.category c) ≡ false)
    (spacing : (c : ℕ) → IsVisible c → str_eq (unicode.category c) "Mn" ≡ false) where
  normalize_tool_name-plain :
      (name : List ℕ) → All IsVisible name → normalize_tool_name unicode name ≡ lower name
  unfolding normalize_tool_name
  normalize_tool_name-plain name h =
      let small = lower-IsVisible name h in
      rw
        (
          nfkc_plain name h,
          normalize_tool_name,
          select-IsVisible _ name (λ c v. ap not (seen c v)) h,
          casefold_plain name h,
          nfd_plain (lower name) small,
          select-IsVisible _ (lower name) (λ c v. ap not (spacing c v)) small,
        )
        (nfc_plain (lower name) small)

  -- Where `unicodedata` and `casefold` treat visible ASCII as documented (the normal forms leave it
  -- alone, folding lowers it, and its categories are neither invisible nor marks), a name of visible
  -- ASCII characters is privileged exactly if it starts with "admin_" once it is in lower case.
  pub is_privileged_tool-lower :
      (name : String)
      → All IsVisible (codes name)
      → is_privileged_tool unicode name
        ≡ is_some (drop_prefix (codes "admin_") (lower (codes name)))
  unfolding is_privileged_tool
  is_privileged_tool-lower name h =
      ap (λ s. is_some (drop_prefix (codes "admin_") s)) (normalize_tool_name-plain (codes name) h)
