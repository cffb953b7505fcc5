-- ===== src/LabOverlay/Verdict/Shown.antt =====
-- What the section of demo/lab_overlay.js says of a record: the verdict of demo/lab_verify.js.
use mobydb_render_engine.Base.{
  ◌≡◌, refl, sym, ap, ◌∙◌, ◌↔◌, Bool, true, false, ok, Text, codes, ◌===◌, if◌then◌else◌,
}
use mobydb_render_engine.Base.Errors.{Holds, Holds-bind, Holds-returned, >>=-eq-ok}
use mobydb_render_engine.LabVerify.Json.{Json, prop}
use mobydb_render_engine.LabVerify.Cert.{Platform, Problem}
use mobydb_render_engine.LabVerify.Record.{LabVerdict, verify_lab_record}
use mobydb_render_engine.LabVerify.Record.Settling.{accepts_record}
use mobydb_render_engine.LabVerify.Record.Trust.{IsGenuine, verify_lab_record_iff}
use mobydb_render_engine.App.Mcp.{optional}
use mobydb_render_engine.LabOverlay.Verdict.{
  Context, VerdictSection, tier_of, date_part, render_verdict, verified_section,
}

tier_text : (b : Bool) → ((if b then codes "OK" else codes "VI") === codes "OK") ≡ b
tier_text true = refl
tier_text false = refl

module _ (to_text : Json → Text) (to_fixed : Text → Text) (describe : Problem → Text) where
  render_verdict-tier :
      (ctx : Context) (record' root : Json) (v : LabVerdict)
      → Holds
          (λ s. s.tier ≡ tier_of to_text to_fixed describe v)
          (render_verdict to_text to_fixed describe ctx record' root v)
  unfolding render_verdict
  render_verdict-tier ctx record' root v =
      let P = λ (s : VerdictSection). s.tier ≡ tier_of to_text to_fixed describe v in
      Holds-bind P (prop record' (codes "input")) _ λ input e.
        Holds-bind P (date_part (optional input (codes "acquisition_timestamp"))) _ λ acquired e.
          Holds-bind P (prop root (codes "label")) _ λ label e.
            Holds-bind P (prop root (codes "root_pubkey")) _ λ key e.
              Holds-bind P (prop record' (codes "signer_public_key")) _ λ signer e.
                Holds-bind P (prop record' (codes "model_version")) _
                  λ model e. Holds-bind P (prop record' (codes "epoch")) _ λ epoch e. refl

  -- Whatever the platform, the texts of values and the wording of errors: where the verification of a
  -- record and the section for its verdict return, the section's tier is OK exactly when the record is
  -- genuine for the trust root.
  pub verified_section_iff :
      (env : Platform) (ctx : Context) (record' root : Json) {s : VerdictSection}
      → verified_section to_text to_fixed describe env ctx record' root ≡ ok s
      → ((s.tier === codes "OK") ≡ true) ↔ IsGenuine env record' root
  unfolding verified_section
  verified_section_iff env ctx record' root {s = s} h =
      let (v, verified, rendered) =
        >>=-eq-ok (verify_lab_record env record' root)
          (render_verdict to_text to_fixed describe ctx record' root) h in
      let tier : s.tier ≡ tier_of to_text to_fixed describe v =
        Holds-returned (λ (s : VerdictSection). s.tier ≡ tier_of to_text to_fixed describe v) _
          (render_verdict-tier ctx record' root v) rendered in
      let says : (s.tier === codes "OK") ≡ v.is_ok =
        ap (λ t. t === codes "OK") tier ∙ tier_text v.is_ok in
      let accepts : accepts_record (verify_lab_record env record' root) ≡ v.is_ok =
        ap accepts_record verified in
      let (sound, complete) = verify_lab_record_iff env record' root in
      (λ shown. sound (accepts ∙ sym says ∙ shown), λ g. says ∙ sym accepts ∙ complete g)
