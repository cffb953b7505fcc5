-- ===== src/App/Audit/Tests.antt =====
-- The rows of the sample bundle of demo/app.js.
use mobydb_render_engine.App.Audit.Sample.{script, four_places, bundle, panel, bundle_renders}
use mobydb_render_engine.App.Audit.Rows.{IsFaithful, render_audit_panel-IsFaithful}

render_audit_panel-IsFaithful_example : IsFaithful script four_places panel
render_audit_panel-IsFaithful_example =
    render_audit_panel-IsFaithful script four_places bundle bundle_renders
