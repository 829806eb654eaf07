-- ===== src/Policy/Engine/Protects.antt =====
-- What the protected patterns of a built engine match.
use agent_dispatch.Base.{
  Str, Bool, true, false, ◌≡◌, ◌↔◌, sym, ◌∙◌, List, map, ok, ok_injective, In-map, map-In, In,
  subst,
}
use agent_dispatch.Records.Paths.{split}
use agent_dispatch.Policy.Rows.{Segment}
use agent_dispatch.Policy.Rows.Meaning.{PathMatches}
use agent_dispatch.Policy.Compile.{compile}
use agent_dispatch.Policy.Engine.{
  Engine, CaseMode, case_sensitive, case_insensitive, case_filesystem, fold_engine, names_of,
}
use agent_dispatch.Policy.Engine.Classified.{Hits}
use agent_dispatch.Policy.Engine.Built.{compile_all-In, compile_all-from, Built}

module _ (valid_utf8 : Str → Bool) (nfc fold : Str → Str) where
  -- the segments as a case-insensitive engine matches them
  abbrev pub folded : List Segment → List Segment
  folded segs = map {A = Segment} (λ seg. record seg { match_text = fold seg.match_text }) segs

  -- One of the patterns matches the path; where case is ignored, both are folded.
  abbrev pub Protects : List Str → Str → CaseMode → Type 0
  Protects protect path case_sensitive =
      (p : Str) × In p protect
      × (segs : List Segment) × (compile valid_utf8 nfc p ≡ ok segs)
      × PathMatches segs (split (nfc path))
  Protects protect path case_insensitive =
      (p : Str) × In p protect
      × (segs : List Segment) × (compile valid_utf8 nfc p ≡ ok segs)
      × PathMatches (folded segs) (map fold (split (nfc path)))
  Protects protect path case_filesystem = ⊥

  pub Built-Protects :
      (include exclude protect : List Str) (mode : CaseMode) (e : Engine) (path : Str)
      → Built valid_utf8 nfc fold false include exclude protect mode e
      → Hits e.protected_set (names_of valid_utf8 nfc fold e path) ↔ Protects protect path mode
  unfolding fold_engine
  Built-Protects include exclude protect case_sensitive e path b =
      let f : false ≡ b.folds = ok_injective b.mode_resolved in
      let names = split (nfc path) in
      rw (b.result, ← f)
        (
          (λ (pat, m, d).
              let (p, i, c) =
                compile_all-from valid_utf8 nfc fold protect b.protects pat b.protect_compiled m in
              (p, i, pat, c, d)),
          (λ (p, i, segs, c, d).
              let (found, k, m) =
                compile_all-In valid_utf8 nfc fold protect b.protects p b.protect_compiled i in
              (found, m, subst (λ s. PathMatches s names) (ok_injective (sym c ∙ k)) d)),
        )
  Built-Protects include exclude protect case_insensitive e path b =
      let f : true ≡ b.folds = ok_injective b.mode_resolved in
      let names = map fold (split (nfc path)) in
      rw (b.result, ← f)
        (
          (λ (pat, m, d).
              let (segs, k, same) = map-In folded b.protects m in
              let (p, i, c) =
                compile_all-from valid_utf8 nfc fold protect b.protects segs b.protect_compiled k in
              (p, i, segs, c, subst (λ s. PathMatches s names) same d)),
          (λ (p, i, segs, c, d).
              let (found, k, m) =
                compile_all-In valid_utf8 nfc fold protect b.protects p b.protect_compiled i in
              (
                folded found,
                In-map folded m,
                subst (λ s. PathMatches (folded s) names) (ok_injective (sym c ∙ k)) d,
              )),
        )
  Built-Protects include exclude protect case_filesystem e path b =
      absurd (let h = b.mode_resolved in cc)
