-- ===== src/Site.antt =====
-- The scripts of the documentation pages: docs/MQTTAsync/html/search/search.js with the tables that it searches,
-- docs/MQTTAsync/html/dynsections.js and docs/MQTTAsync/html/menu.js, of which the other two sets of pages have
-- equal copies.
pub mod Ids
pub mod Results
pub mod Keys
pub mod Box
pub mod Index
pub mod Sections
pub mod Children
pub mod Panels
pub mod Menu
