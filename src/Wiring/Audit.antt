-- ===== src/Wiring/Audit.antt =====
-- The audit panel of demo/app.js with the section of demo/twin_overlay.js in it: a click asks for the
-- provenance of a cell, a bundle that renders sends `audit-open`, and every text that the page puts into
-- the panel removes the section. The map's selection and the verifier are not part of it.
pub mod Sections
use mobydb_render_engine.Base.{
  ℕ, suc, Bool, Option, none, some, List, [], ◌∷◌, ◌++◌, Result, ok, throw, Text, codes, ◌===◌,
  ◌==◌, keep, if◌then◌else◌,
}
use mobydb_render_engine.LabVerify.Json.{Json, num, str, obj, Fields, end, field}
use mobydb_render_engine.App.Mcp.{Script}
use mobydb_render_engine.App.View
use mobydb_render_engine.App.View.{Selection, click_cell, provenance_ready}
use mobydb_render_engine.App.Audit
use mobydb_render_engine.App.Audit.{render_audit_panel}
use mobydb_render_engine.Twin.{H3, extract_cell_id}
use mobydb_render_engine.Twin.Panel
use mobydb_render_engine.Twin.Panel.{audit_open, twin_state, no_section}

pub record Desk : Type 0 where
  pub selection : Selection
  pub current_epoch : Text
  -- The calls of `get_provenance` that are awaited, with their cells.
  pub next_call : ℕ
  pub asking : List (ℕ × Text)
  pub twin : Panel.Panel

pub data DeskEvent : Type 0 where
  click : (id : ℕ) → (cell : Text) → DeskEvent
  provenance : (call : ℕ) → Result Json → DeskEvent
  twin_reply : (cell : Text) → Result Json → DeskEvent

-- `{ ...base, ...fs }`.
abbrev pub put : Text → Json → Fields → Fields
put k v end = field k v end
put k v (field j w fs) = if j === k then field j v fs else field j w (put k v fs)

abbrev pub spread_fields : Fields → Fields → Fields
spread_fields end base = base
spread_fields (field k v fs) base = spread_fields fs (put k v base)

-- A bundle that renders is an object.
abbrev pub spread : Json → Fields → Fields
spread (obj fs) base = spread_fields fs base
spread v base = base

-- The detail of `audit-open`.
unfoldable pub detail_of : Text → Text → Json → Json
detail_of cell epoch inner = obj (
    field (codes "cell")
      (obj
        (spread inner (field (codes "h3_cell") (str cell) (field (codes "epoch") (num epoch) end))))
      end)

-- `innerHTML = …` on the panel.
abbrev pub wiped : Panel.Panel → Panel.Panel
wiped p = record p { section = no_section }

abbrev pub find_call : ℕ → List (ℕ × Text) → Option Text
find_call q [] = none
find_call q ((p, cell) ∷ rest) = if p == q then some cell else find_call q rest

module _ (script : Script) (to_fixed : Json → Result Text) (h3 : Option H3) where
  -- `onCellClick` up to its `await`.
  abbrev pub clicked : ℕ → Text → Desk → Desk
  clicked id cell d = record d {
    selection = click_cell id cell d.selection;
    next_call = suc d.next_call;
    asking = d.asking ++ (d.next_call, cell) ∷ [];
    twin = wiped d.twin;
  }

  abbrev pub failed : Text → Text → Desk → Desk
  failed cell message d = record d {
    selection = provenance_ready cell (throw message) d.selection;
    twin = wiped d.twin;
  }

  -- The bundle is shown, and the overlay hears of it.
  abbrev pub opened : Text → Json → Desk → Desk
  opened cell inner d = record d {
    selection = provenance_ready cell (ok inner) d.selection;
    twin =
        Panel.on_event (audit_open (extract_cell_id h3 (detail_of cell d.current_epoch inner)))
          (wiped d.twin);
  }

  abbrev pub rendered : Text → Json → Result Audit.Panel → Desk → Desk
  rendered cell inner (ok panel) d = opened cell inner d
  rendered cell inner (throw message) d = failed cell message d

  -- `onCellClick` after its `await`.
  abbrev pub answered : Option Text → Result Json → Desk → Desk
  answered none r d = d
  answered (some cell) (throw message) d = failed cell message d
  answered (some cell) (ok inner) d =
      rendered cell inner (render_audit_panel script to_fixed inner) d

  unfoldable pub on_event : DeskEvent → Desk → Desk
  on_event (click id cell) d = clicked id cell d
  on_event (provenance call r) d =
      answered (find_call call d.asking) r
        (record d { asking = keep (λ c. if c.0 == call then Bool.false else Bool.true) d.asking })
  on_event (twin_reply cell r) d = record d { twin = Panel.on_event (twin_state cell r) d.twin }

  unfoldable pub run : List DeskEvent → Desk → Desk
  run [] d = d
  run (e ∷ es) d = run es (on_event e d)
