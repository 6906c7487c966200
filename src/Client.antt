-- ===== src/Client.antt =====
-- client.c: the requests that `tx_t` sends and the replies that `rx_t` handles, the table of
-- sequence numbers in header.h that joins the two, `main`, and its report.
pub mod Seq
pub mod Request
pub mod Reply
pub mod Main
pub mod Report
pub mod Send
pub mod Receive
