-- ===== src/Html.antt =====
-- backend/app/core/tg_html.py: from the editor's HTML to the tags that Telegram knows.
pub mod Scan
pub mod Markup
pub mod Convert
pub mod Written
pub mod Nesting
