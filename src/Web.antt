-- ===== src/Web.antt =====
-- The scripts of the web interface, web/static/*.js.
mod Tests
pub mod Csv
pub mod Html
pub mod Combobox
pub mod Csrf
pub mod Stacks
pub mod Prefs
pub mod Wiring
