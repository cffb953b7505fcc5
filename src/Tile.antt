-- ===== src/Tile.antt =====
-- demo/lab_tile_preview.js: the projection of a cell on a satellite tile, the modal that shows it, and
-- the button that opens the modal.
mod Tests
pub mod Projection
pub mod Modal
pub mod Trigger
pub mod Canvas
pub mod Card
