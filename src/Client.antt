-- ===== src/Client.antt =====
-- src/client.c: the terminal client. Its input, its validators, its four menus and its login.
pub mod Input
pub mod Validators
pub mod Terminal
pub mod Customer
pub mod Employee
pub mod Manager
pub mod Admin
pub mod Payload
pub mod Served
pub mod Routed
pub mod Shrinks
pub mod Menus
pub mod Main
pub mod Online
