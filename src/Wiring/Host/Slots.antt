-- ===== src/Wiring/Host/Slots.antt =====
-- The audit panel as three slots: what each overlay put there last, in no order.
use mobydb_render_engine.Base.{
  ◌≡◌, refl, sym, ap, ◌∙◌, Bool, true, false, Option, none, some, List, [], ◌∷◌, Text, keep,
  keep-append, append_nil, if◌then◌else◌, Bool-cases, inl, inr, arith,
}
use mathlib.Core.Path.{subst}
use mobydb_render_engine.Compliance.Controller.{AuditSection}
use mobydb_render_engine.LabOverlay
use mobydb_render_engine.Twin.Panel
use mobydb_render_engine.Twin.Panel.{
  Panel, PanelEvent, audit_open, twin_state, no_section, loading, empty_detail, no_twin_data,
  detail, failed, section_of, is_inflight, cell_of, section_of-cell,
}
use mobydb_render_engine.Wiring.Host.{
  Kind, compliance, lab, twin, Node, compliance_node, lab_node, twin_node, kind_of, is_same, clear,
  attach, Page, HostEvent, replaced, compliance_attaches, lab_attaches, twin_does, twin_attached,
  on_event, run,
}

pub record Slots : Type 0 where
  pub compliance_slot : Option AuditSection
  pub lab_slot : Option LabOverlay.Section
  pub panel : Panel

abbrev pub put : HostEvent → Slots → Slots
put replaced s = record {
  compliance_slot = none;
  lab_slot = none;
  panel = record s.panel { section = no_section };
}
put (compliance_attaches c) s = record s { compliance_slot = some c }
put (lab_attaches l) s = record s { lab_slot = some l }
put (twin_does e) s = record s { panel = Panel.on_event e s.panel }

abbrev pub put_all : List HostEvent → Slots → Slots
put_all [] s = s
put_all (e ∷ es) s = put_all es (put e s)

abbrev pub nodes_of {ℓ} : {A : Type ℓ} → (A → Node) → Option A → List Node
nodes_of f none = []
nodes_of f (some a) = f a ∷ []

abbrev pub twin_nodes : Panel.Section → List Node
twin_nodes no_section = []
twin_nodes s = twin_node s ∷ []

-- The sections of a kind in the element.
abbrev pub sections : Kind → List Node → List Node
sections k host = keep (λ n. is_same k (kind_of n)) host

abbrev pub slot : Kind → Slots → List Node
slot compliance s = nodes_of compliance_node s.compliance_slot
slot lab s = nodes_of lab_node s.lab_slot
slot twin s = twin_nodes s.panel.section

-- The element holds of each kind what its slot holds, and the panel of the twin overlay is the same.
abbrev pub Implements : Page → Slots → Type 0
Implements page s = ((k : Kind) → sections k page.host ≡ slot k s) × (page.panel ≡ s.panel)

sections-clear_same : (k : Kind) (host : List Node) → sections k (clear k host) ≡ []
sections-clear_same k [] = refl
sections-clear_same k (n ∷ host) = elim (Bool-cases (is_same k (kind_of n))) [
  | inl e ↦ rw (e, sections-clear_same k host) refl
  | inr e ↦ rw (e, e, sections-clear_same k host) refl
]

is_same_sound : (j k : Kind) → is_same j k ≡ true → j ≡ k
is_same_sound compliance compliance h = refl
is_same_sound compliance lab h = ground arith
is_same_sound compliance twin h = ground arith
is_same_sound lab compliance h = ground arith
is_same_sound lab lab h = refl
is_same_sound lab twin h = ground arith
is_same_sound twin compliance h = ground arith
is_same_sound twin lab h = ground arith
is_same_sound twin twin h = refl

is_same_refl : (k : Kind) → is_same k k ≡ true
is_same_refl compliance = refl
is_same_refl lab = refl
is_same_refl twin = refl

sections-clear_other :
    (j k : Kind) (host : List Node)
    → is_same j k ≡ false
    → sections j (clear k host) ≡ sections j host
sections-clear_other j k [] h = refl
sections-clear_other j k (n ∷ host) h = elim (Bool-cases (is_same k (kind_of n))) [
  | inl e ↦
      let other : is_same j (kind_of n) ≡ false =
        ap (is_same j) (sym (is_same_sound k (kind_of n) e)) ∙ h in
      rw (e, other) (sections-clear_other j k host h)
  | inr e ↦ rw (e, sections-clear_other j k host h) refl
]

sections-attach :
    (k : Kind) (n : Node) (host : List Node)
    → sections k (attach n host) ≡ (if is_same k (kind_of n) then n ∷ [] else sections k host)
unfolding attach
sections-attach k n host = elim (Bool-cases (is_same k (kind_of n))) [
  | inl e ↦
      let cleared : sections k (clear (kind_of n) host) ≡ [] =
        subst (λ j. sections k (clear j host) ≡ []) (is_same_sound k (kind_of n) e)
          (sections-clear_same k host) in
      rw (keep-append (λ m. is_same k (kind_of m)) (clear (kind_of n) host) (n ∷ []), cleared, e)
        refl
  | inr e ↦
      rw
        (
          keep-append (λ m. is_same k (kind_of m)) (clear (kind_of n) host) (n ∷ []),
          sections-clear_other k (kind_of n) host e,
          e,
        )
        (append_nil (sections k host))
]

-- A section that its overlay attaches fills its slot, and no other.
attach_slot :
    (n : Node) (host : List Node) (old new : Kind → List Node)
    → ((k : Kind) → sections k host ≡ old k)
    → ((k : Kind) → new k ≡ (if is_same k (kind_of n) then n ∷ [] else old k))
    → (k : Kind) → sections k (attach n host) ≡ new k
attach_slot n host old new h filled k = rw (sections-attach k n host, h k) (sym (filled k))

twin_nodes_shown :
    (s : Panel.Section) {cell : Text} → cell_of s ≡ some cell → twin_nodes s ≡ twin_node s ∷ []
twin_nodes_shown no_section h = ground arith
twin_nodes_shown (loading cell) h = refl
twin_nodes_shown (empty_detail cell) h = refl
twin_nodes_shown (no_twin_data cell) h = refl
twin_nodes_shown (detail cell v) h = refl
twin_nodes_shown (failed cell message) h = refl

twin_fills :
    (s : Panel.Section) {cell : Text} (a b : Slots)
    → cell_of s ≡ some cell
    → b.panel.section ≡ s
    → b.compliance_slot ≡ a.compliance_slot
    → b.lab_slot ≡ a.lab_slot
    → (k : Kind) → slot k b ≡ (if is_same k twin then twin_node s ∷ [] else slot k a)
twin_fills s a b shown e c l compliance = ap (nodes_of compliance_node) c
twin_fills s a b shown e c l lab = ap (nodes_of lab_node) l
twin_fills s a b shown e c l twin = ap twin_nodes e ∙ twin_nodes_shown s shown

same_slot :
    (k : Kind) (s : Slots) (p : Panel)
    → p.section ≡ s.panel.section
    → slot k s ≡ slot k (record s { panel = p })
same_slot compliance s p e = refl
same_slot lab s p e = refl
same_slot twin s p e = ap twin_nodes (sym e)

-- A reply, whose cell is in flight or not.
reply_slot :
    (b : Bool) (made : Panel.Section) {cell : Text} (settled : Panel) (host : List Node) (s : Slots)
    → cell_of made ≡ some cell
    → settled.section ≡ s.panel.section
    → ((k : Kind) → sections k host ≡ slot k s)
    → (k : Kind)
    → sections k (if b then attach (twin_node made) host else host)
      ≡ slot k (record s { panel = if b then record settled { section = made } else settled })
reply_slot true made settled host s shown e h k =
    attach_slot (twin_node made) host (λ k. slot k s)
      (λ k. slot k (record s { panel = record settled { section = made } })) h
      (twin_fills made s _ shown refl refl refl) k
reply_slot false made settled host s shown e h k = h k ∙ same_slot k s settled e

twin_attached-slot :
    (e : PanelEvent) (host : List Node) (s : Slots)
    → ((k : Kind) → sections k host ≡ slot k s)
    → (k : Kind) → sections k (twin_attached e s.panel host) ≡ slot k (put (twin_does e) s)
unfolding Panel.on_event
twin_attached-slot (audit_open none) host s h k = h k
twin_attached-slot (audit_open (some cell)) host s h k =
    attach_slot (twin_node (loading cell)) host (λ k. slot k s)
      (λ k. slot k (put (twin_does (audit_open (some cell))) s)) h
      (twin_fills (loading cell) s _ refl refl refl refl) k
twin_attached-slot (twin_state cell r) host s h k =
    reply_slot (is_inflight s.panel.inflight_cell cell) (section_of cell r) _ host s
      (section_of-cell cell r) refl h k

put-Implements :
    (e : HostEvent) (page : Page) (s : Slots)
    → Implements page s
    → Implements (on_event e page) (put e s)
unfolding on_event
put-Implements replaced page s (h, p) = (
  elim [ compliance ↦ refl | lab ↦ refl | twin ↦ refl ],
  ap (λ (q : Panel). record q { section = no_section }) p,
)
put-Implements (compliance_attaches c) page s (h, p) = (
  attach_slot (compliance_node c) page.host (λ k. slot k s)
      (λ k. slot k (put (compliance_attaches c) s)) h
      (elim [ compliance ↦ refl | lab ↦ refl | twin ↦ refl ]),
  p,
)
put-Implements (lab_attaches l) page s (h, p) = (
  attach_slot (lab_node l) page.host (λ k. slot k s) (λ k. slot k (put (lab_attaches l) s)) h
      (elim [ compliance ↦ refl | lab ↦ refl | twin ↦ refl ]),
  p,
)
put-Implements (twin_does e) page s (h, p) =
    (rw p (twin_attached-slot e page.host s h), ap (Panel.on_event e) p)

-- Over any sequence of replacements, attachments and events of the twin overlay, from an element that
-- holds of each kind what its slot holds: it still does, so it holds at most one section of each kind,
-- the one that was put there last and not removed, and that of the twin overlay is the one of its panel.
pub run-Implements :
    (es : List HostEvent) (page : Page) (s : Slots)
    → Implements page s
    → Implements (run es page) (put_all es s)
unfolding run
run-Implements [] page s h = h
run-Implements (e ∷ es) page s h =
    run-Implements es (on_event e page) (put e s) (put-Implements e page s h)
