-- ===== src/Wiring/Host.antt =====
-- The element of the audit panel as the page and the overlays change it: demo/app.js replaces its
-- content, and demo/compliance_overlay.js, demo/lab_overlay.js and demo/twin_overlay.js each remove their
-- own section by its class and append a new one. The panel of the twin overlay runs along.
pub mod Slots
use mobydb_render_engine.Base.{
  Bool, true, false, not, Option, none, some, List, [], ◌∷◌, ◌++◌, Result, Text, keep,
  if◌then◌else◌,
}
use mobydb_render_engine.LabVerify.Json.{Json}
use mobydb_render_engine.Compliance.Controller.{AuditSection}
use mobydb_render_engine.LabOverlay
use mobydb_render_engine.Twin.Panel
use mobydb_render_engine.Twin.Panel.{
  Panel, PanelEvent, audit_open, twin_state, loading, section_of, is_inflight, no_section,
}

-- The class of a section.
pub data Kind : Type 0 where
  compliance lab twin : Kind

pub data Node : Type 0 where
  compliance_node : AuditSection → Node
  lab_node : LabOverlay.Section → Node
  twin_node : Panel.Section → Node

abbrev pub kind_of : Node → Kind
kind_of (compliance_node s) = compliance
kind_of (lab_node s) = lab
kind_of (twin_node s) = twin

abbrev pub is_same : Kind → Kind → Bool
is_same compliance compliance = true
is_same lab lab = true
is_same twin twin = true
is_same _ _ = false

-- `host.querySelectorAll(class).forEach(n => n.remove())`.
abbrev pub clear : Kind → List Node → List Node
clear k host = keep (λ n. not (is_same k (kind_of n))) host

-- With `host.appendChild(section)` after it.
unfoldable pub attach : Node → List Node → List Node
attach n host = clear (kind_of n) host ++ n ∷ []

pub record Page : Type 0 where
  pub host : List Node
  pub panel : Panel

pub data HostEvent : Type 0 where
  -- `$("audit").innerHTML = …`.
  replaced : HostEvent
  compliance_attaches : AuditSection → HostEvent
  lab_attaches : LabOverlay.Section → HostEvent
  twin_does : PanelEvent → HostEvent

-- `onAuditOpen` of the twin overlay, on the element.
abbrev pub twin_attached : PanelEvent → Panel → List Node → List Node
twin_attached (audit_open none) p host = host
twin_attached (audit_open (some cell)) p host = attach (twin_node (loading cell)) host
twin_attached (twin_state cell r) p host =
    if is_inflight p.inflight_cell cell then attach (twin_node (section_of cell r)) host else host

unfoldable pub on_event : HostEvent → Page → Page
on_event replaced page = record { host = []; panel = record page.panel { section = no_section } }
on_event (compliance_attaches s) page = record page { host = attach (compliance_node s) page.host }
on_event (lab_attaches s) page = record page { host = attach (lab_node s) page.host }
on_event (twin_does e) page = record {
  host = twin_attached e page.panel page.host;
  panel = Panel.on_event e page.panel;
}

unfoldable pub run : List HostEvent → Page → Page
run [] page = page
run (e ∷ es) page = run es (on_event e page)
