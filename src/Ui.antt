-- ===== src/Ui.antt =====
-- The components of the user interface, and the two routers.
pub mod Dialog
pub mod NodeList
pub mod Scroll
pub mod Router
pub mod Markdown
pub mod Drawer
pub mod ChatInput
pub mod NumberInput
pub mod Pages
pub mod MessageView
pub mod ChatView
pub mod Notification
pub mod JoinCommand
pub mod ModelSelect
pub mod Button
pub mod TitleIcon
pub mod Snackbar
pub mod Hooks
pub mod MainLayout
pub mod AlertStyle
