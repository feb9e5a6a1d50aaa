-- ===== src/AddrSelect.antt =====
-- Package dns/addrselect: the order in which the addresses of a host are tried (RFC 6724).
pub mod Ip
pub mod Policy
pub mod Rules
pub mod Sort
mod Mark
mod Family
mod Key
pub mod Order
mod Sorted
pub mod Sorting
pub mod CommonPrefix
pub mod Flags
pub mod Sources
mod Tests
