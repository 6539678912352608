-- ===== src/Tests.antt =====
-- Runs of the model at concrete inputs, among them one for each theorem that has hypotheses.
mod Data
mod Names
mod Limits
mod Files
mod Contents
mod Folders
mod Shares
mod Tokens
mod Archives
mod Searches
mod Versions
mod Backups
mod Photos
mod Routes
mod Sessions
