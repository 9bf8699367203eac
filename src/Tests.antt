-- ===== src/Tests.antt =====
-- Each theorem with conditions or arguments, applied to a concrete input on which the code does its
-- work.
mod Indexing
mod Crawling
mod Storing
mod Serving
mod Routing
mod Encoding
mod Fetching
mod Answering
mod Wiring
mod Typing
mod Launching
