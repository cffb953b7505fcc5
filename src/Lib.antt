-- ===== src/Lib.antt =====
-- The browser side of the MobyDB render engine: the demo page of demo/ with its overlays, and the
-- offline verifiers that the page runs on what the server sends.
--
-- Parts. demo/app.js draws the map, queries signed cells over MCP and announces them on a bus;
-- demo/verify.js checks the provenance bundle of one cell; demo/lab_verify.js checks the records of
-- the lab against its trust root. The overlays listen to the bus or run beside it:
-- demo/compliance_overlay.js scores cells, demo/liveness_indicators.js logs the cells events,
-- demo/lab_overlay.js shows lab records, demo/twin_overlay.js telemetry,
-- demo/ai_observer_ticker.js releases observations, demo/cuneo_overlay.js shows stations and devices,
-- demo/compliance_button.js the audit bundle, demo/lab_tile_preview.js the satellite tile of a cell, and
-- demo/lab_demo_button.js flies the map to the cell of the lab.
--
-- Files.
--   Base: shared types and lemmas: Boolean tests, lists, texts as UTF-16 code units (Base/Strings),
--     parseInt (Base/Int), computations that may throw (Base/Errors). Backdrops: modals and key listeners.
--   Merkle: demo/verify.js: hexToBytes is hex_to_bytes, reconstructRoot is reconstruct_root,
--     bytesEqual is bytes_equal, verifyProvenance is verify_provenance. Merkle/Tree is the server's
--     side, crates/mobydb-client/src/merkle.rs and merkle_root of crates/seed-data/src/main.rs.
--   LabVerify: demo/lab_verify.js by its sections: Base64, Json (the values it reads), Jcs (jcs), Cert
--     (verifyCert), Record (verifyLabRecord, verifyResponse).
--   App: demo/app.js: idFromH3, voltageToKv, escapeHtml; App/Mcp is mcpCall; App/Cells is refreshCells
--     as a transition over refreshes, replies, failures and slides.
--   App/View: onCellClick, doVerify and the readouts of the page. App/Operator is normalizeOperator,
--     App/Audit renderAuditPanel, App/Lines loadTransmissionLines, App/Debounce debounce,
--     App/Setup the load handler of the map, with the listeners and the highlighted cell.
--   Compliance: scoreCell and isEuCell of demo/compliance_overlay.js; Compliance/Controller is its
--     controller, with applyOverlay, removeOverlay, annotateCells and renderAuditSection.
--   Bundle: demo/compliance_button.js: buildDashboardHTML and showToast; Bundle/Modal is openModal.
--   Liveness: onCellsEvent, cellsPerMin, stateLabel, fmtAgo of demo/liveness_indicators.js;
--     Liveness/Flash is flashCells, Liveness/Controller the controller with pingHealth and its timers.
--   Twin: demo/twin_overlay.js: the overlay as a transition, classifyCell, rollupRes8, extractCellId;
--     Twin/Panel is onAuditOpen, Twin/Layer applyMapOverlay and removeMapOverlay, Twin/Inspector
--     openAiModal and renderAiResult, Twin/Detail renderTwinDetail.
--   LabOverlay: onAuditOpen, attach, toggleCostCounter of demo/lab_overlay.js as a transition;
--     LabOverlay/Verdict is renderVerdict, on the verdict of LabVerify, LabOverlay/Query queryPredictions.
--   Fetches: the fetch helpers of demo/twin_overlay.js, demo/ai_observer_ticker.js,
--     demo/compliance_button.js and demo/cuneo_overlay.js.
--   Boots: boot of demo/lab_overlay.js and of demo/lab_tile_preview.js.
--   LabDemo: demo/lab_demo_button.js: boot, flyToLabCell, and the events of the map and the timers.
--   Ticker: demo/ai_observer_ticker.js: pickNext, renderObservation, releaseOne, refreshPool,
--     typewriteInto; Ticker/Page is boot with the timers, Ticker/Timeline openTimelineModal.
--   Wiring: the page with its listeners: __syncCellsToBus and the slider of demo/app.js send to the strip
--     of demo/liveness_indicators.js; Wiring/Audit is onCellClick with onAuditOpen of
--     demo/twin_overlay.js, Wiring/Host the element of the audit panel, with
--     the sections of the three overlays.
--   Cuneo: demo/cuneo_overlay.js: loadStations, loadDevices, activate, deactivate, the station modal,
--     canonicalJSON, hexToBytes, verifyDevice; Cuneo/Listing is the list of a station's devices with its
--     summary, Cuneo/Detail renderDeviceDetailInModal, Cuneo/Session init with the buttons.
--   Tile: demo/lab_tile_preview.js: Tile/Projection is bilinearForward and projectToUV, Tile/Modal
--     buildModal with its loading pipeline and fetchStacItem, Tile/Trigger injectTrigger and the observer,
--     Tile/Canvas drawTileWithCell, Tile/Card the texts of the card.
--   Bench: parseArgs, percentile, mean and the pool of calls of scripts/bench/p99.mjs; Bench/Report is
--     callOnce and the numbers of the report, Bench/Main main.
--
-- Conventions. An async function is cut at its await: the part before it is one transition, the part
-- after it another, which an event with the reply starts; a theorem about run holds for every order of
-- events. A promise that rejects, and a throw, are the throw of Result. Libraries that the page loads
-- (blake3, Ed25519, h3, SubtleCrypto, JSON.parse, Date.parse) are parameters; what a theorem needs of
-- one is a hypothesis.
--
-- Bounds and fuel. Bytes are numbers below 256 where a theorem says so, ids are reduced modulo 2^32.
-- The launches of the benchmark run on as many rounds as there are iterations, after which none is
-- left to launch. The loops over the layers of a Merkle tree run on fuel, the number of leaves: each
-- round leaves fewer hashes, so it is enough, and Merkle.Tree.Path proves it for every leaf. The
-- decimal text of n takes at most n + 1 rounds, one for each digit. The
-- projection of a tile runs its 30 rounds, as the source does. All other recursion is structural.
--
-- Not modelled. Markup, styles, timers' delays, the map library, and arithmetic on doubles: a number
-- is exact, and where a comparison of doubles decides, it is a parameter. The other crates, the SQL
-- and the clients in other languages are not part of the model.
pub mod Base
pub mod Merkle
pub mod LabVerify
pub mod Compliance
pub mod App
pub mod Liveness
pub mod Twin
pub mod Ticker
pub mod Cuneo
pub mod LabDemo
pub mod LabOverlay
pub mod Backdrops
pub mod Boots
pub mod Fetches
pub mod Bundle
pub mod Tile
pub mod Wiring
pub mod Bench
